-- ===== src/RunOptions.antt =====
-- crates/kit/src/libvirt/run.rs: the options of `bcvk libvirt run` that are text with a form of its own.
pub mod Ports
pub mod Names
use bcvk.Common.{
  ℕ, zero, suc, ◌+◌, Char, code, String, List, [], ◌∷◌, Option, none, some, Bool, true, false, not,
  ◌==◌, ◌||◌, eqb, format, join, if◌then◌else◌, any_char, parse_uint, to_string, trim,
  is_empty_text, split_once, starts_with, map_chars, is_empty,
}
use bcvk.Result.{Result, ok, err, ensure, ok_or, ◌>>=◌, ◌>>◌}

pub record PortMapping : Type 0 where
  pub host_port : ℕ
  pub guest_port : ℕ

-- `FromStr` and `Display` of `PortMapping`; a `u16` has 16 bits
unfoldable pub parse_port_mapping : String → Result PortMapping
parse_port_mapping s = do
  (host_part, guest_part) ←
      ok_or (split_once ":" s)
        (format ("Invalid port format '" ∷ s ∷ "'. Expected format: host_port:guest_port" ∷ []))
  host_port ←
      ok_or (parse_uint 16 (trim host_part)) (
        format ("Invalid host port '" ∷ host_part ∷ "'. Must be a number between 1 and 65535" ∷ []))
  guest_port ← ok_or (parse_uint 16 (trim guest_part)) (
      format ("Invalid guest port '" ∷ guest_part ∷ "'. Must be a number between 1 and 65535" ∷ []))
  ok (record { host_port = host_port; guest_port = guest_port })

unfoldable pub show_port_mapping : PortMapping → String
show_port_mapping p = format (to_string p.host_port ∷ ":" ∷ to_string p.guest_port ∷ [])

pub record BindMount : Type 0 where
  pub host_path : String
  pub guest_path : String

unfoldable pub parse_bind_mount : String → Result BindMount
parse_bind_mount s = do
  (host_part, guest_part) ←
      ok_or (split_once ":" s) (
        format
          ("Invalid bind mount format '" ∷ s ∷ "'. Expected format: host_path:guest_path" ∷ []))
  ensure (not (is_empty_text (trim host_part) || is_empty_text (trim guest_part))) (
      format (
        "Invalid bind mount format '" ∷ s ∷ "'. Both host path and guest path must be non-empty"
        ∷ []))
  ok (record { host_path = trim host_part; guest_path = trim guest_part })

-- `BindMount::validate`, by what the file system answers
unfoldable pub validate_bind_mount : (exists is_dir : String → Bool) → BindMount → Result (Unit {0})
validate_bind_mount exists is_dir m = do
  ensure (exists m.host_path) (format ("Host path '" ∷ m.host_path ∷ "' does not exist" ∷ []))
  ensure (is_dir m.host_path) (format ("Host path '" ∷ m.host_path ∷ "' is not a directory" ∷ []))
  ensure (starts_with "/" m.guest_path)
      (format ("Guest path '" ∷ m.guest_path ∷ "' must be an absolute path" ∷ []))

abbrev pub is_comma : Char → Bool
is_comma c = eqb (code c) 44

unfoldable pub validate_labels : List String → Result (Unit {0})
validate_labels [] = ok tt
validate_labels (label ∷ rest) = do
  ensure (not (any_char is_comma label))
      (format ("Label '" ∷ label ∷ "' contains comma which is not allowed" ∷ []))
  validate_labels rest

-- the text that `run` puts into the domain's metadata, where there is a label
unfoldable pub label_metadata : List String → Option String
label_metadata label = if not (is_empty label) then some (join "," label) else none
