-- ===== src/Tests/Podman.antt =====
-- The command for podman, prepared.
use bcvk.Common.{
  ℕ, String, true, false, some, none, List, [], ◌∷◌, refl, split_once, starts_with, split, join,
  ends_with,
}
use bcvk.Common.Text.Paths.{file_name}
use bcvk.Storage.{detect_container_storage_path, validate_container_storage_path}
use bcvk.Ephemeral.Podman.{
  container_args, sandbox_args, mount_spec, disk_args, parse_mount, units_args, dns_args, disk_env,
}
use bcvk.Result.{ok}
use bcvk.Host.{Machine}
use bcvk.Host.Exec.{◌>>=◌}
use bcvk.Ephemeral.{read_host_dns_servers}
use bcvk.Ephemeral.DiskFiles.{DiskHost, process_disk_files}
use bcvk.Ephemeral.Options.{CommonPodmanOptions, RunEphemeralOpts, default_common_vm_opts}
use bcvk.Ephemeral.Podman.Command.{PodmanHost, prepare_run_command_with_temp}
use bcvk.Ephemeral.Podman.Mounts.{Mounted, prepare_run_command_with_temp-Mounted}
use bcvk.Tests.{printed}
use bcvk.Tests.Logs.{disks, begin}

abbrev pub over : {W : Type 0} → DiskHost W → PodmanHost W
over disk_host = record {
  storage = record {
    exists = λ path w. true;
    is_dir = λ path w. true;
    podman = λ args w. ok (printed "");
    graph_root = λ text. ok (some "/storage");
  };
  disks = disk_host;
  labels = λ text. ok (λ key. none);
  tempdir = λ w. (ok "/tmp/run", w);
  write_executable = λ path text w. (ok tt, w);
  current_exe = ok "/usr/bin/bcvk";
  current_dir = λ w. ok "/home";
  try_exists = λ path w. ok true;
  canonicalize = λ path w. ok path;
  read_to_string = λ path w. none;
  ipv4 = λ text. none;
  ipv6 = λ text. none;
  open_truncated = λ path w. (ok tt, w);
  take_fd = λ n. n;
  to_json = λ opts. "{}";
  entrypoint_script = "";
  run = λ args w. (ok (printed "c0ffee"), w);
}

abbrev podman : PodmanHost ℕ
podman = over disks

abbrev container : CommonPodmanOptions
container = record {
  tty = false;
  interactive = false;
  detach = true;
  rm = true;
  name = some "vm";
  network = none;
  label = [];
  env = [];
}

abbrev opts : RunEphemeralOpts
opts = record {
  image = "quay.io/image";
  common = default_common_vm_opts;
  podman = container;
  debug_entrypoint = none;
  bind_mounts = "/srv/data:data" ∷ [];
  ro_bind_mounts = "/etc" ∷ [];
  systemd_units_dir = none;
  bind_storage_ro = true;
  add_swap = none;
  mount_disk_files = "/disks/a.img:output" ∷ [];
  kernel_args = [];
  ignition_config = none;
  host_dns_servers = none;
}

abbrev prepared : List String
prepared =
    "run" ∷ "--pull=never" ∷ "--label=bcvk.ephemeral=1" ∷ "--mount=type=tmpfs,target=/run"
    ∷ "--name" ∷ "vm" ∷ "--rm" ∷ "-d" ∷ "--cap-add=all" ∷ "--security-opt=label=disable"
    ∷ "--security-opt=seccomp=unconfined" ∷ "--security-opt=unmask=/proc/*"
    ∷ "--group-add=keep-groups" ∷ "-v" ∷ "/sys:/sys:ro" ∷ "-v" ∷ "/var/tmp:/var/tmp"
    ∷ "--device=/dev/kvm" ∷ "--device=/dev/vhost-vsock" ∷ "-v" ∷ "/usr:/run/tmproot/usr:ro" ∷ "-v"
    ∷ "/etc/ld.so.cache:/run/tmproot/etc/ld.so.cache:ro" ∷ "-v"
    ∷ "/tmp/run/entrypoint:/var/lib/bcvk/entrypoint" ∷ "-v" ∷ "/usr/bin/bcvk:/run/selfexe:ro"
    ∷ "--stop-signal=SIGKILL"
    ∷ "--mount=type=image,source=quay.io/image,target=/run/source-image,rw=true" ∷ "-v"
    ∷ "/storage:/run/host-mounts/hoststorage:ro" ∷ "-v" ∷ "/srv/data:/run/host-mounts/data" ∷ "-v"
    ∷ "/etc:/run/host-mounts/etc:ro" ∷ "-v" ∷ "/disks/a.img:/run/disk-files/output:rw" ∷ "-e"
    ∷ "BCK_CONFIG={}" ∷ "-e" ∷ "BOOTC_DISK_FILES=/run/disk-files/output:output:raw" ∷ "--"
    ∷ "quay.io/image" ∷ "/var/lib/bcvk/entrypoint" ∷ []

abbrev after : Machine ℕ
after = (prepare_run_command_with_temp podman opts begin).1

prepare_run_command_with_temp-Mounted_example : Mounted podman opts prepared
unfolding prepare_run_command_with_temp process_disk_files split_once starts_with
    detect_container_storage_path validate_container_storage_path container_args sandbox_args
    mount_spec disk_args parse_mount units_args file_name dns_args split read_host_dns_servers
    disk_env join ends_with ◌>>=◌
prepare_run_command_with_temp-Mounted_example =
    prepare_run_command_with_temp-Mounted podman opts prepared begin after refl
