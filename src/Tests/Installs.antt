-- ===== src/Tests/Installs.antt =====
-- The theorems on the installation to a disk, applied.
use bcvk.Common.{
  List, String, [], split_once, true, false, some, none, ◌≡◌, ◌↔◌, ◌⊎◌, refl, strip_prefix, split,
  map_chars, trim, parse_uint, strip_suffix, ends_with, starts_with, join,
}
use bcvk.Common.Text.Paths.{join_path, file_stem, parent}
use bcvk.Result.{Result, err, ok}
use bcvk.Host.{Machine}
use bcvk.Host.Exec.{
  pure, queries, setxattr, write_file, create_dir_all, create_temp, remove_file, ◌>>=◌,
}
use bcvk.Cache.{
  check_cached_disk, write_to_file, to_bootc_args, compare, compute_cache_hash, from, inputs,
}
use bcvk.BaseDisk.{to_disk_opts, create_base_disk}
use bcvk.BaseDisk.Install.{installation, create_base_disk-installs}
use bcvk.Storage.{detect_container_storage_path}
use bcvk.Sizes.{parse_size}
use bcvk.ToDisk.{ToDiskOpts, ToDiskHost, RunOutcome, ImageInspect, calculate_disk_size}
use bcvk.ToDisk.Script.{generate_bootc_install_command}
use bcvk.ToDisk.Command.{ephemeral_opts, normalized, write_disk_metadata, run}
use bcvk.ToDisk.Outcome.{Installed, run-Installed}
use bcvk.ToDisk.DryRun.{with_dry_run, run-dry}
use bcvk.ToDisk.Again.{Unwritten, run-again}
use bcvk.Ephemeral.DiskFiles.{qcow2, DiskHost, process_disk_files}
use bcvk.Ephemeral.Options.{RunEphemeralOpts}
use bcvk.Ephemeral.Podman.Command.{prepare_run_command_with_temp}
use bcvk.Storage.{validate_container_storage_path}
use bcvk.Common.Text.Paths.{file_name}
use bcvk.Ephemeral.{read_host_dns_servers}
use bcvk.Ephemeral.Podman.{
  container_args, sandbox_args, mount_spec, disk_args, parse_mount, units_args, dns_args, disk_env,
}
use bcvk.ToDisk.Target.{Attached, ephemeral_opts-Attached}
use bcvk.Tests.Podman.{over}
use bcvk.Tests.{printed}
use bcvk.Tests.Disks.{
  Xattrs, attributed, hash_of, options, bare, base_path, opened, reads_own, keeps_other,
}

abbrev image : ImageInspect
image = record { digest = "sha256:abc"; size = 1024 }

abbrev machine : ToDiskHost Xattrs
machine = record {
  host = attributed;
  storage = record {
    exists = λ path w. true;
    is_dir = λ path w. true;
    podman = λ args w. ok (printed "");
    graph_root = λ text. ok (some "/storage");
  };
  inspect = λ name w. ok image;
  create_file = λ path w. (ok tt, w);
  set_len = λ path size w. (ok tt, w);
  open_write = λ path w. ok tt;
  tempdir = λ w. (ok "/tmp/units", w);
  command = λ args w. (ok (printed ""), w);
  is_terminal = false;
  try_quote = λ text. ok text;
  to_disk_target = "";
  run_detached = λ opts. pure "c0ffee";
  wait_for_ssh_ready = λ id. pure tt;
  connect = λ id args tty. pure true;
}

abbrev disk_opts : ToDiskOpts
disk_opts = to_disk_opts "quay.io/image" "disk" options none

abbrev made : Machine Xattrs
made = (run machine hash_of disk_opts bare).1

done : run machine hash_of disk_opts bare ≡ (ok RunOutcome.created, made)
unfolding run check_cached_disk queries to_disk_opts remove_file detect_container_storage_path
    calculate_disk_size parse_size map_chars trim parse_uint strip_suffix to_bootc_args
    generate_bootc_install_command create_dir_all write_file compare compute_cache_hash from inputs
    write_to_file join_path ends_with starts_with setxattr strip_prefix ◌>>=◌
done = refl

run-Installed_example :
    (u : Machine Xattrs) × Installed machine hash_of (normalized disk_opts) u
    × ((write_disk_metadata machine hash_of (normalized disk_opts) u).1 ≡ made)
run-Installed_example = run-Installed machine hash_of disk_opts bare made done

run-again_example :
    Unwritten machine hash_of (normalized disk_opts) made
    ⊎ (run machine hash_of disk_opts made ≡ (ok RunOutcome.cached, made))
unfolding to_disk_opts
run-again_example =
    run-again machine hash_of disk_opts bare made (λ k x w. refl) reads_own keeps_other refl refl
      done

run-dry_example :
    ((run machine hash_of (with_dry_run true disk_opts) made).1 ≡ made)
    × ((run machine hash_of (with_dry_run true disk_opts) made).0
          ≡ ok RunOutcome.dry_run_would_reuse
        ↔ (run machine hash_of (with_dry_run false disk_opts) made).0 ≡ ok RunOutcome.cached)
run-dry_example = run-dry machine hash_of disk_opts made

abbrev temp_opts : ToDiskOpts
temp_opts = to_disk_opts "quay.io/image" "/pool/new" options none

abbrev installed : Machine Xattrs
installed = (run machine hash_of temp_opts opened).1

done_temp : run machine hash_of temp_opts opened ≡ (ok RunOutcome.created, installed)
unfolding run check_cached_disk queries to_disk_opts remove_file detect_container_storage_path
    calculate_disk_size parse_size map_chars trim parse_uint strip_suffix to_bootc_args
    generate_bootc_install_command create_dir_all write_file compare compute_cache_hash from inputs
    write_to_file join_path ends_with starts_with setxattr strip_prefix create_temp ◌>>=◌
done_temp = refl

create_base_disk-installs_example :
    Unwritten machine hash_of (normalized temp_opts) installed
    ⊎ ((create_base_disk attributed hash_of none
          (installation machine hash_of)
          base_path
          "quay.io/image"
          "sha256:abc"
          options
          none
          bare).0
        ≡ ok tt)
unfolding create_temp file_stem parent starts_with split join normalized to_disk_opts strip_prefix
create_base_disk-installs_example =
    create_base_disk-installs machine hash_of none base_path "quay.io/image" "/pool/new" options
      none image bare opened installed refl (λ k x w. refl) refl reads_own keeps_other refl refl
      refl done_temp

-- every file is there, and regular
abbrev present : DiskHost Xattrs
present = record {
  get_image_size = λ path w. ok 1000;
  exists = λ path w. true;
  is_file = λ path w. ok true;
  create = λ path w. (ok tt, w);
  set_len = λ path size w. (ok tt, w);
  canonicalize = λ path w. ok path;
}

abbrev machine_opts : RunEphemeralOpts
machine_opts = ephemeral_opts machine temp_opts 1024 "/tmp/units"

abbrev prepared : Result (List String) × Machine Xattrs
prepared = prepare_run_command_with_temp (over present) machine_opts bare

abbrev args_of : Result (List String) → List String
args_of (ok args) = args
args_of (err _) = []

ephemeral_opts-Attached_example : Attached "/pool/new" qcow2 (args_of prepared.0)
unfolding prepare_run_command_with_temp process_disk_files split_once starts_with
    detect_container_storage_path validate_container_storage_path container_args sandbox_args
    mount_spec disk_args parse_mount units_args file_name dns_args split read_host_dns_servers
    disk_env join ends_with to_disk_opts ephemeral_opts ◌>>=◌
ephemeral_opts-Attached_example =
    ephemeral_opts-Attached machine (over present) temp_opts 1024 "/tmp/units" (args_of prepared.0)
      bare prepared.1 refl refl refl
