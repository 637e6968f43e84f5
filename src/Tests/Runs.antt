-- ===== src/Tests/Runs.antt =====
-- The theorems on `bcvk libvirt run`, applied.
use bcvk.Common.{
  Char, String, Bool, true, false, some, none, [], ◌∷◌, ◌≡◌, refl, ◌⊎◌, trim, lines, split, leb,
  arith,
}
use bcvk.Result.{ok, err}
use bcvk.Host.{Machine}
use bcvk.Host.Exec.{Exec, pure, virsh, ◌>>=◌}
use bcvk.Xml.{Event}
use bcvk.RunOptions.Names.{contains_name}
use bcvk.Host.Fails.{Fails}
use bcvk.ToDisk.{ToDiskOpts}
use bcvk.Builder.{FirmwareType}
use bcvk.DomainList.{list_all_domains}
use bcvk.StartStop.{LibvirtSshOpts}
use bcvk.Run.{LibvirtRunOpts, RunHost, find_available_ssh_port}
use bcvk.Run.Command.{run}
use bcvk.Run.Defined.{Defined}
use bcvk.Run.Outcome.{run-taken}
use bcvk.Run.Port.{IsChosen, find_available_ssh_port-IsChosen}
use bcvk.Tests.{printed}
use bcvk.Tests.Disks.{Xattrs, attributed, hash_of, options, marked}
use bcvk.Tests.Keys.{files}

abbrev machine : RunHost Xattrs
machine = record {
  host = record attributed {
    read_events =
        λ text. ok (Event.start "path" []) ∷ ok (Event.text "/pool") ∷ ok (Event.end "path") ∷ [];
  };
  arch = "x86_64";
  is_dir = λ path w. true;
  try_exists = λ path w. ok true;
  can_bind = λ port w. true;
  random_range = λ lo hi w. (lo, w);
  tempdir = λ w. (ok "/tmp/keys", w);
  generate_ssh_keypair = λ dir name w. (ok ("/tmp/keys/id_rsa", "/tmp/keys/id_rsa.pub"), w);
  read_to_string = λ path w. ok "key";
  copy = λ from to w. (ok tt, w);
  canonicalize = λ path w. ok path;
  open_or_create = λ path w. (ok tt, w);
  encode = λ text. text;
  parse_memory_to_mb = λ text. ok 4096;
  podman = λ args w. ok (printed "");
  graph_root = λ text. ok (some "/storage");
  labels = λ text. ok (λ key. none);
  inspect = λ image w. ok "sha256:abc";
  command = λ args w. (err "no command", w);
  files = λ w. files;
  escape = λ text. text;
  default_vcpus = 2;
  new_uuid = "1";
  document = λ events. "<domain/>";
  journal_stream_unit = "";
  journal_stream_initrd_unit = "";
}

abbrev opts : LibvirtRunOpts
opts = record {
  image = "quay.io/image";
  name = some "web";
  replace = false;
  itype = none;
  memory = "4G";
  cpus = 2;
  disk_size = "20G";
  install = options;
  port_mappings = [];
  raw_volumes = "/data:data" ∷ [];
  bind_mounts = [];
  bind_mounts_ro = [];
  network = "user";
  ssh = false;
  ssh_wait = false;
  bind_storage_ro = false;
  update_from_host = false;
  firmware = FirmwareType.uefi_insecure;
  disable_tpm = true;
  firmware_log = false;
  secure_boot_keys = none;
  label = [];
  graphical_console = false;
  transient = true;
  ignition_config = none;
  virtiofsd_binary = none;
  console_log = none;
  platform_console_log = none;
  metadata = [];
  extra_smbios_credentials = [];
  log_dir = none;
}

abbrev installs_nothing : ToDiskOpts → Exec Xattrs (Unit {0})
installs_nothing o = pure tt

abbrev waits : String → Exec Xattrs (Unit {0})
waits name = pure tt

abbrev connects : LibvirtSshOpts → Exec Xattrs (Unit {0})
connects o = pure tt

abbrev is_alphanumeric : Char → Bool
is_alphanumeric c = true

abbrev done : Machine Xattrs
done = (run machine none hash_of installs_nothing waits connects is_alphanumeric opts marked).1

-- a host on which the domain is there
abbrev taken : RunHost Xattrs
taken = record machine {
  host = record attributed { virsh = λ uri args w. (ok (printed "web"), w) };
}

abbrev listed : Machine Xattrs
listed = (list_all_domains taken.host none marked).1

run-taken_example :
    Fails
      (λ t. (t ≡ marked) ⊎ (t ≡ listed))
      (run taken none hash_of installs_nothing waits connects is_alphanumeric opts)
      marked
unfolding list_all_domains virsh contains_name trim lines split ◌>>=◌
run-taken_example =
    run-taken taken none hash_of installs_nothing waits connects is_alphanumeric opts ("web" ∷ [])
      "web" marked listed refl refl refl refl

-- the first 100 ports are taken
abbrev crowded : RunHost Xattrs
crowded = record machine { can_bind = λ port w. leb 2322 port }

find_available_ssh_port-IsChosen_example : IsChosen crowded 2322 marked
unfolding find_available_ssh_port ◌>>=◌
find_available_ssh_port-IsChosen_example =
    find_available_ssh_port-IsChosen crowded 2322 marked marked
      (λ lo hi w less. (omega arith, less)) refl
