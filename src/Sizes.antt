-- ===== src/Sizes.antt =====
-- Sizes with units: `parse_size` of crates/kit/src/utils.rs, and the memory units of libvirt in
-- crates/kit/src/libvirt/mod.rs. A `u32` or `u64` is a number with its bound written out.
pub mod ParseSize
pub mod Units
use bcvk.Common.{
  ℕ, ◌*◌, ◌/◌, ◌%◌, ◌^◌, ◌-◌, ◌<◌, Char, code, String, Option, none, some, Bool, ◌==◌, ◌||◌, ◌&&◌,
  leb, ltb, eqb, if◌then◌else◌, is_empty_text, trim, strip_suffix, map_chars, parse_uint, format,
  List, [], ◌∷◌, unwrap_or,
}
use bcvk.Result.{Result, ok, err}
use bcvk.Xml.{XmlNode, attributes, text_content, get}

-- the table of `unit_to_bytes`
unfoldable pub unit_to_bytes : String → Option ℕ
unit_to_bytes unit =
    if unit == "B" || unit == "bytes"
    then some 1
    else if unit == "k" || unit == "K" || unit == "KiB"
    then some 1024
    else if unit == "M" || unit == "MiB"
    then some (1024 ^ 2)
    else if unit == "G" || unit == "GiB"
    then some (1024 ^ 3)
    else if unit == "T" || unit == "TiB"
    then some (1024 ^ 4)
    else if unit == "KB"
    then some 1000
    else if unit == "MB"
    then some (1000 ^ 2)
    else if unit == "GB"
    then some (1000 ^ 3)
    else if unit == "TB"
    then some (1000 ^ 4)
    else none

-- `try_from(..).ok()` at `width` bits
abbrev narrow : ℕ → ℕ → Option ℕ
narrow width n = if ltb n (2 ^ width) then some n else none

-- The product is a `u128`: a value of 64 bits by at most 1024⁴ fits.
abbrev to_mib : ℕ → ℕ → Option ℕ → Option ℕ
to_mib width value none = none
to_mib width value (some bytes_per_unit) = narrow width (value * bytes_per_unit / 1048576)

unfoldable pub convert_memory_to_mb : ℕ → String → Option ℕ
unfolding unit_to_bytes
convert_memory_to_mb value unit = to_mib 32 value (unit_to_bytes unit)

unfoldable pub convert_to_mb : ℕ → String → Option ℕ
unfolding unit_to_bytes
convert_to_mb value unit = to_mib 64 value (unit_to_bytes unit)

unfoldable pub parse_memory_mb : XmlNode → Option ℕ
unfolding convert_memory_to_mb
parse_memory_mb memory = elim (parse_uint 32 (text_content memory)) [
  | none ↦ none
  | some value ↦ convert_memory_to_mb value (unwrap_or (get "unit" (attributes memory)) "KiB")
]

-- `str::to_uppercase`, of the ASCII letters. No other letter has an upper case that ends in a unit
-- suffix or holds a digit, so a text with one is refused either way.
upper_letters : List (Char × Char)
upper_letters =
    ("a", "A")
    ∷ ("b", "B")
    ∷ ("c", "C")
    ∷ ("d", "D")
    ∷ ("e", "E")
    ∷ ("f", "F")
    ∷ ("g", "G")
    ∷ ("h", "H")
    ∷ ("i", "I")
    ∷ ("j", "J")
    ∷ ("k", "K")
    ∷ ("l", "L")
    ∷ ("m", "M")
    ∷ ("n", "N")
    ∷ ("o", "O")
    ∷ ("p", "P")
    ∷ ("q", "Q")
    ∷ ("r", "R")
    ∷ ("s", "S")
    ∷ ("t", "T")
    ∷ ("u", "U")
    ∷ ("v", "V")
    ∷ ("w", "W")
    ∷ ("x", "X")
    ∷ ("y", "Y")
    ∷ ("z", "Z")
    ∷ []

upper_from : List (Char × Char) → Char → Char
upper_from [] c = c
upper_from ((lower, upper) ∷ rest) c =
    if eqb (code c) (code lower) then upper else upper_from rest c

unfoldable pub to_uppercase : String → String
unfolding upper_from upper_letters
to_uppercase = map_chars (upper_from upper_letters)

-- the unit suffixes, in the order in which they are tried
abbrev pub size_units : List (String × ℕ)
size_units =
    ("TB", 1024 ^ 4)
    ∷ ("GB", 1024 * 1024 * 1024)
    ∷ ("MB", 1024 * 1024)
    ∷ ("KB", 1024)
    ∷ ("T", 1024 ^ 4)
    ∷ ("G", 1024 * 1024 * 1024)
    ∷ ("M", 1024 * 1024)
    ∷ ("K", 1024)
    ∷ ("B", 1)
    ∷ []

unfoldable pub split_unit : List (String × ℕ) → String → String × ℕ
split_unit [] s = (s, 1)
split_unit ((suffix, multiplier) ∷ rest) s = elim (strip_suffix suffix s) [
  | none ↦ split_unit rest s
  | some num ↦ (num, multiplier)
]

-- The product is a `u64`; in a release build it wraps around.
times_unit : String → ℕ → Result ℕ
times_unit number_str multiplier = elim (parse_uint 64 number_str) [
  | none ↦ err (format ("Invalid number in size: " ∷ number_str ∷ []))
  | some number ↦ ok (number * multiplier % 2 ^ 64)
]

unfoldable pub parse_size : String → Result ℕ
unfolding to_uppercase split_unit times_unit
parse_size size_str =
    let s = to_uppercase (trim size_str) in
    if is_empty_text s
    then err "Empty size string"
    else (let (number_str, multiplier) = split_unit size_units s in
        times_unit number_str multiplier)
