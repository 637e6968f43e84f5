-- ===== src/Ephemeral.antt =====
-- crates/kit/src/run_ephemeral.rs: the value of `--log-dir`, the text of a journal's line, and the
-- name servers that a machine is given, and whether an image supports Ignition. The reading of JSON and of IP addresses, and the way text is
-- quoted in a message, are parameters.
pub mod LogDirs
pub mod DiskFiles
pub mod Options
pub mod Podman
use bcvk.Common.{
  ℕ, ◌/◌, ◌*◌, eqb, String, Bool, true, false, not, ◌&&◌, ◌||◌, Option, none, some, List, [], ◌∷◌,
  ◌==◌, if◌then◌else◌, format, is_empty_text, rsplit_once, strip_prefix, trim, split, lines,
  is_empty,
}
use bcvk.Common.Text.Paths.{join_path}
use bcvk.Result.{Result, ok, err, context, ◌>>=◌}
use bcvk.Host.{Output}

pub record LogDir : Type 0 where
  pub path : String
  pub journal : Bool
  pub console : Bool

abbrev below : Bool → String → String → Option String
below true path name = some (join_path path name)
below false path name = none

-- `LogDir::journal_path`
unfoldable pub journal_path : LogDir → Option String
journal_path d = below d.journal d.path "journal.json"

-- `LogDir::journal_initrd_path`
unfoldable pub journal_initrd_path : LogDir → Option String
journal_initrd_path d = below d.journal d.path "journal-initrd.json"

-- `LogDir::console_path`
unfoldable pub console_path : LogDir → Option String
console_path d = below d.console d.path "console.txt"

module _ (quoted : String → String) where
  -- the loop over the streams, from what has been asked for so far
  unfoldable pub streams : Bool → Bool → List String → Result (Bool × Bool)
  streams journal console [] = ok (journal, console)
  streams journal console (part ∷ rest) =
      let with_journal = streams true console rest in
      let with_console = streams journal true rest in
      let without = streams journal console rest in
      if trim part == "journal"
      then with_journal
      else if trim part == "console"
      then with_console
      else if is_empty_text (trim part)
      then without
      else err (
          format (
            "--log-dir unknown stream name "
            ∷ quoted (trim part)
            ∷ "; expected `journal` or `console`"
            ∷ []))

  unfoldable pub log_dir : String → String → Bool × Bool → Result LogDir
  log_dir streams_str path_str (journal, console) =
      if not journal && not console
      then err (
          format (
            "--log-dir STREAMS must contain at least one of `journal`, `console`; got: "
            ∷ quoted streams_str
            ∷ []))
      else ok (record { path = path_str; journal = journal; console = console })

  -- `LogDir::from_str`
  unfoldable pub from_str : String → Result LogDir
  unfolding streams log_dir
  from_str s = elim (rsplit_once "=" s) [
    | none ↦ err (
        format ("--log-dir value must have the form STREAMS=PATH (no `=` found): " ∷ quoted s ∷ []))
    | some parts ↦
        if is_empty_text parts.1
        then err (format ("--log-dir PATH must not be empty: " ∷ quoted s ∷ []))
        else streams false false (split "," parts.0) >>= log_dir parts.0 parts.1
  ]

-- `or_else` of an option
abbrev or : Option String → Option String → Option String
or (some a) b = some a
or none b = b

abbrev unit_of : Option String → Option String → Option String
unit_of (some u) (some uu) = some (format (u ∷ "/" ∷ uu ∷ []))
unit_of (some u) none = some u
unit_of none uu = uu

abbrev pid_suffix : Option String → String
pid_suffix none = ""
pid_suffix (some p) = format ("[" ∷ p ∷ "]" ∷ [])

abbrev or_unknown : Option String → String
or_unknown none = "unknown"
or_unknown (some name) = name

-- `journal_json_to_text`: `object` gives the fields of a line's JSON that are strings
unfoldable pub journal_json_to_text :
    (String → Option (String → Option String)) → String → Option String
journal_json_to_text object line = elim (object line) [
  | none ↦ none
  | some field ↦ elim (field "MESSAGE") [
    | none ↦ none
    | some message ↦
        let unit = unit_of (field "_SYSTEMD_UNIT") (field "_SYSTEMD_USER_UNIT") in
        let prefix = or_unknown (or unit (or (field "SYSLOG_IDENTIFIER") (field "_COMM"))) in
        let pid = pid_suffix (or (field "_PID") (field "SYSLOG_PID")) in
        some (format (prefix ∷ pid ∷ ": " ∷ message ∷ "\n" ∷ []))
  ]
]

abbrev server : String → List String → List String
server line more = elim (strip_prefix "nameserver " (trim line)) [
  | none ↦ more
  | some address ↦ if is_empty_text (trim address) then more else trim address ∷ more
]

unfoldable pub servers : List String → List String
servers [] = []
servers (line ∷ rest) = let more = servers rest in server line more

-- `parse_resolv_conf`
unfoldable pub parse_resolv_conf : String → List String
unfolding servers
parse_resolv_conf content = servers (lines content)

-- addresses that are read, with what the standard library says of them
pub record Ipv4Addr : Type 0 where
  pub is_loopback : Bool
  pub is_link_local : Bool

pub record Ipv6Addr : Type 0 where
  pub is_loopback : Bool
  pub is_multicast : Bool
  -- `segments()[0]`, of 16 bits
  pub first_segment : ℕ

-- the segment `& 0xffc0`, which clears its six low bits
abbrev pub masked : ℕ → ℕ
masked segment = segment / 64 * 64

module _ (ipv4 : String → Option Ipv4Addr) (ipv6 : String → Option Ipv6Addr)
    (read_to_string : String → Option String) where
  unfoldable pub usable : String → Bool
  usable s = elim (ipv4 s) [
    | some ip ↦ not ip.is_loopback && not ip.is_link_local
    | none ↦ elim (ipv6 s) [
      | some ip ↦
          not ip.is_loopback && (not ip.is_multicast && not (eqb (masked ip.first_segment) 0xfe80))
      | none ↦ false
    ]
  ]

  unfoldable pub filtered : List String → List String
  unfolding usable
  filtered [] = []
  filtered (s ∷ rest) = let more = filtered rest in if usable s then s ∷ more else more

  unfoldable pub servers_at : String → List String
  unfolding filtered parse_resolv_conf
  servers_at path = elim (read_to_string path) [
    | none ↦ []
    | some content ↦ filtered (parse_resolv_conf content)
  ]

  unfoldable pub first_servers : List String → Option (List String)
  unfolding servers_at
  first_servers [] = none
  first_servers (path ∷ rest) =
      let later = first_servers rest in
      let found = servers_at path in if not (is_empty found) then some found else later

  -- `read_host_dns_servers`
  unfoldable pub read_host_dns_servers : Option (List String)
  unfolding first_servers
  read_host_dns_servers =
      first_servers ("/run/systemd/resolve/resolv.conf" ∷ "/etc/resolv.conf" ∷ [])

filled : Option String → Bool
filled none = false
filled (some value) = not (is_empty_text value)

-- `check_ignition_support`: `podman` runs it with these arguments, and `from_slice` reads the labels.
unfoldable pub check_ignition_support :
    (List String → Result Output)
    → (String → Result (String → Option String))
    → String
    → Result Bool
unfolding filled
check_ignition_support podman from_slice image = do
  output ←
      context (podman ("image" ∷ "inspect" ∷ "--format" ∷ "{{json .Labels}}" ∷ image ∷ []))
        "Failed to inspect image for labels"
  if not output.success
      then err
          (format ("Failed to inspect image " ∷ image ∷ " for labels: " ∷ trim output.stderr ∷ []))
      else context (from_slice output.stdout) "Failed to parse image labels as JSON" >>= λ labels.
          ok (filled (labels "coreos.ignition") || filled (labels "com.coreos.osname"))
