-- ===== src/Tests/Logs.antt =====
-- The values of `--log-dir` and of `--mount-disk-file`, a journal's line and a list of name servers,
-- read.
use bcvk.Common.{
  ℕ, zero, format, split_once, starts_with, ends_with, true, false, some, none, [], ◌∷◌, ◌≡◌, refl,
  ◌==◌, if◌then◌else◌, rsplit_once, trim, split, strip_prefix, strip_suffix, lines,
}
use bcvk.Result.{is_ok, ok}
use bcvk.Host.{Machine}
use bcvk.Host.Exec.{◌>>=◌}
use bcvk.Ephemeral.DiskFiles.{DiskHost, Format, process_disk_files}
use bcvk.Ephemeral.DiskFiles.Existing.{process_disk_files-existing}
use bcvk.Ephemeral.{LogDir, from_str, journal_json_to_text, parse_resolv_conf}
use bcvk.Ephemeral.LogDirs.{Reads, from_str-Reads}

abbrev logs : LogDir
logs = record { path = "/tmp/logs"; journal = true; console = true }

from_str-Reads_example : Reads (λ s. s) "console, journal=/tmp/logs" logs
unfolding from_str rsplit_once trim split
from_str-Reads_example = from_str-Reads (λ s. s) "console, journal=/tmp/logs" logs refl

-- a path with an equals sign is not read
equals_example : is_ok (from_str (λ s. s) "journal=/tmp/a=b") ≡ false
unfolding from_str rsplit_once trim split
equals_example = refl

journal_example :
    journal_json_to_text (λ line. some (λ key. if key == "_COMM" then none else some key)) "{}"
    ≡ some "_SYSTEMD_UNIT/_SYSTEMD_USER_UNIT[_PID]: MESSAGE\n"
unfolding journal_json_to_text
journal_example = refl

servers_example :
    parse_resolv_conf "search lan\n nameserver 10.0.0.1 \nnameserver \nnameserver fe80::1"
    ≡ "10.0.0.1" ∷ "fe80::1" ∷ []
unfolding parse_resolv_conf strip_prefix trim lines split strip_suffix
servers_example = refl

-- every file is there, and regular
abbrev pub disks : DiskHost ℕ
disks = record {
  get_image_size = λ image w. ok 1000;
  exists = λ path w. true;
  is_file = λ path w. ok true;
  create = λ path w. (ok tt, zero);
  set_len = λ path size w. (ok tt, size);
  canonicalize = λ path w. ok (format ("/home/" ∷ path ∷ []));
}

abbrev pub begin : Machine ℕ
begin = record { world = 7; log = [] }

process_disk_files-existing_example :
    (process_disk_files disks ("/disks/a.qcow2:data" ∷ "b.img" ∷ []) "image" begin).1 ≡ begin
process_disk_files-existing_example =
    process_disk_files-existing disks ("/disks/a.qcow2:data" ∷ "b.img" ∷ []) "image" begin
      ((λ _ _ _ _. refl), ((λ _ _ _ _. refl), tt))

process_disk_files_example :
    (process_disk_files disks ("/disks/a.qcow2:data" ∷ "b.img" ∷ []) "image" begin).0
    ≡ ok (("/disks/a.qcow2", "data", Format.qcow2) ∷ ("/home/b.img", "output", Format.raw) ∷ [])
unfolding process_disk_files split_once starts_with ends_with ◌>>=◌
process_disk_files_example = refl
