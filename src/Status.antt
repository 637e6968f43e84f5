-- ===== src/Status.antt =====
-- crates/kit/src/libvirt/status.rs: libvirt's version, and how many domains there are and run.
use bcvk.Common.{
  ℕ, suc, String, Bool, false, Option, none, some, List, [], ◌∷◌, ◌==◌, if◌then◌else◌, contains,
  split, split_once, lines, parse_uint, or_else, length, leb, unwrap_or,
}
use bcvk.Common.Text.Search.{after}
use bcvk.Result.{Result, ok, err}
use bcvk.Host.{Host}
use bcvk.Host.Exec.{Exec, pure, attempt, virsh, with_context, ◌>>=◌}
use bcvk.DomainList.{list_all_domains, get_domain_state}

pub record LibvirtVersion : Type 0 where
  pub major : ℕ
  pub minor : ℕ
  pub micro : ℕ
  pub full_version : String

pub record LibvirtStatus : Type 0 where
  pub version : Option LibvirtVersion
  pub supports_readonly_virtiofs : Bool
  pub domain_count : ℕ
  pub running_domain_count : ℕ

-- the number in a part of the version, and 0 if the part is not there or not a number
abbrev number_at : List String → ℕ
number_at [] = 0
number_at (part ∷ _) = unwrap_or (parse_uint 32 part) 0

abbrev rest_of : List String → List String
rest_of [] = []
rest_of (_ ∷ rest) = rest

abbrev version_of : String → List String → Option LibvirtVersion
version_of text [] = none
version_of text (part ∷ rest) = elim (parse_uint 32 part) [
  | none ↦ none
  | some major ↦ some (record {
    major = major;
    minor = number_at rest;
    micro = number_at (rest_of rest);
    full_version = text;
  })
]

unfoldable pub parse_version_string : String → Option LibvirtVersion
parse_version_string version_str = version_of version_str (split "." version_str)

unfoldable version_in_line : String → Option LibvirtVersion
unfolding after parse_version_string
version_in_line line = elim (after "libvirt " line) [
  | none ↦ none
  | some part ↦ elim (split_once " " part) [
    | none ↦ parse_version_string part
    | some cut ↦ parse_version_string cut.0
  ]
]

unfoldable version_in : List String → Option LibvirtVersion
unfolding version_in_line
version_in [] = none
version_in (line ∷ rest) =
    let later = version_in rest in
    if contains "libvirt" line then or_else (version_in_line line) later else later

unfoldable pub parse_libvirt_version_from_output : String → Option LibvirtVersion
unfolding version_in
parse_libvirt_version_from_output output = version_in (lines output)

abbrev pub supports_readonly_virtiofs : Option LibvirtVersion → Bool
supports_readonly_virtiofs none = false
supports_readonly_virtiofs (some v) = leb 11 v.major

module _ {W : Type 0} (h : Host W) where
  unfoldable pub parse_libvirt_version : Exec W (Option LibvirtVersion)
  unfolding parse_libvirt_version_from_output
  parse_libvirt_version = do
    output ← with_context (virsh h none ("version" ∷ [])) "Failed to check libvirt version"
    if output.success then pure (parse_libvirt_version_from_output output.stdout) else pure none

  abbrev is_running : Result String → Bool
  is_running (ok state) = state == "running"
  is_running (err _) = false

  unfoldable pub count_running : List String → Exec W ℕ
  count_running [] = pure 0
  count_running (domain_name ∷ rest) = do
    state ← attempt (get_domain_state h none domain_name)
    more ← count_running rest
    pure (if is_running state then suc more else more)

  -- the command, up to the printing of the status
  unfoldable pub run : Exec W LibvirtStatus
  unfolding parse_libvirt_version count_running
  run = do
    version ← parse_libvirt_version
    all_domains ← with_context (list_all_domains h none) "Failed to list domains"
    running_count ← count_running all_domains
    pure (record {
      version = version;
      supports_readonly_virtiofs = supports_readonly_virtiofs version;
      domain_count = length all_domains;
      running_domain_count = running_count;
    })
