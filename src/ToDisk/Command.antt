-- ===== src/ToDisk/Command.antt =====
-- crates/kit/src/to_disk.rs: `run`. The units' temporary directory goes when it is dropped, which is
-- left out.
use bcvk.Common.{
  ℕ, String, true, false, not, Option, none, some, List, [], ◌∷◌, if◌then◌else◌, format,
  strip_prefix, unwrap_or, to_string,
}
use bcvk.Common.Text.Paths.{join_path}
use bcvk.Result.{Result, ok, err}
use bcvk.Host.{Output, Action}
use bcvk.Host.Exec.{
  Exec, pure, fail, lift, reads, queries, with_context, attempt, remove_file, create_dir_all,
  write_file, ◌>>=◌, ◌>>◌,
}
use bcvk.Cache.{CacheInputs, Validation, valid, invalid, from, check_cached_disk, write_to_file}
use bcvk.Storage.{detect_container_storage_path, validate_container_storage_path}
use bcvk.Ephemeral.DiskFiles.{Format, raw, qcow2}
use bcvk.Ephemeral.Options.{CommonPodmanOptions, RunEphemeralOpts}
use bcvk.ToDisk.{ToDiskOpts, ToDiskHost, ImageInspect, RunOutcome, as_str, calculate_disk_size}
use bcvk.ToDisk.Script.{generate_bootc_install_command}

unfoldable pub normalized : ToDiskOpts → ToDiskOpts
normalized opts = record opts {
  source_image = unwrap_or (strip_prefix "containers-storage:" opts.source_image) opts.source_image;
}

module _ {W : Type 0} (t : ToDiskHost W) where
  unfoldable pub inspect : String → Exec W ImageInspect
  inspect image s = (t.inspect image s.world, s)

  unfoldable pub get_storage_path : ToDiskOpts → Exec W String
  get_storage_path opts = elim opts.install.storage_path [
    | some path ↦ validate_container_storage_path t.storage path >> pure path
    | none ↦ detect_container_storage_path t.storage
  ]

  -- the size of the image, where no size is asked for
  unfoldable pub disk_size_of : ToDiskOpts → Exec W ℕ
  unfolding inspect
  disk_size_of opts s =
      let size : Result ℕ = elim (t.inspect opts.source_image s.world) [
        | ok i ↦ ok i.size
        | err e ↦ err e
      ] in
      (calculate_disk_size size opts, s)

  unfoldable pub create_file : String → Exec W (Unit {0})
  create_file path s =
      let (done, w) = t.create_file path s.world in
      (done, record { world = w; log = Action.write_file path ∷ s.log })

  unfoldable pub set_len : String → ℕ → Exec W (Unit {0})
  set_len path size s =
      let (done, w) = t.set_len path size s.world in
      (done, record { world = w; log = Action.write_file path ∷ s.log })

  unfoldable pub command : List String → Exec W Output
  command args s =
      let (output, w) = t.command args s.world in
      (output, record { world = w; log = Action.command args ∷ s.log })

  unfoldable pub create_disk : Format → String → ℕ → Exec W (Unit {0})
  unfolding create_file set_len command
  create_disk raw target_disk disk_size = do
    with_context (create_file target_disk) (format ("Opening " ∷ target_disk ∷ []))
    set_len target_disk disk_size
  create_disk qcow2 target_disk disk_size = do
    output ←
        with_context
          (command
            ("qemu-img" ∷ "create" ∷ "-f" ∷ "qcow2" ∷ target_disk ∷ to_string disk_size ∷ []))
          (format ("Failed to run qemu-img create for " ∷ target_disk ∷ []))
    if not output.success
        then fail (format ("qemu-img create failed: " ∷ output.stderr ∷ []))
        else pure tt

  unfoldable tempdir : Exec W String
  tempdir s =
      let (dir, w) = t.tempdir s.world in
      (dir, record { world = w; log = Action.create_temp "" ∷ s.log })

  unfoldable pub write_units : Exec W String
  unfolding tempdir
  write_units = do
    units_dir ← tempdir
    let system : String = join_path units_dir "system"
    create_dir_all t.host system
    write_file t.host (join_path system "bcvk-to-disk.target") t.to_disk_target
    pure units_dir

  abbrev podman_options : ToDiskOpts → CommonPodmanOptions
  podman_options opts = record {
    tty = t.is_terminal;
    interactive = false;
    detach = true;
    rm = true;
    name = none;
    network = none;
    label = opts.additional.label;
    env = [];
  }

  unfoldable pub ephemeral_opts : ToDiskOpts → ℕ → String → RunEphemeralOpts
  ephemeral_opts opts disk_size units_dir = record {
    image = opts.source_image;
    common = record opts.additional.common { ssh_keygen = true };
    podman = podman_options opts;
    debug_entrypoint = none;
    bind_mounts = [];
    ro_bind_mounts = [];
    systemd_units_dir = some units_dir;
    bind_storage_ro = true;
    add_swap = some (to_string disk_size);
    mount_disk_files =
        format (opts.target_disk ∷ ":output:" ∷ as_str opts.additional.format ∷ []) ∷ [];
    kernel_args = "systemd.unit=bcvk-to-disk.target" ∷ [];
    ignition_config = none;
    host_dns_servers = none;
  }

  -- the installation in the machine
  unfoldable pub session : String → List String → Exec W (Unit {0})
  session container_id bootc_install_command = do
    t.wait_for_ssh_ready container_id
    success ← t.connect container_id bootc_install_command t.is_terminal
    if not success then fail "SSH installation command failed with exit code" else pure tt

  module _ (hash_of : CacheInputs → String) where
    unfoldable pub write_disk_metadata : ToDiskOpts → Exec W (Unit {0})
    unfolding inspect
    write_disk_metadata opts = do
      i ← inspect opts.source_image
      with_context (queries t.host (t.open_write opts.target_disk))
          (format ("Failed to open disk file " ∷ opts.target_disk ∷ []))
      with_context
          (write_to_file hash_of t.host (from opts.install i.digest opts.source_image)
            opts.target_disk)
          "Failed to write metadata to disk file"

    -- A disk whose installation failed is removed; a failure to write its metadata is passed over.
    unfoldable pub settled : ToDiskOpts → Result (Unit {0}) → Exec W RunOutcome
    unfolding write_disk_metadata
    settled opts (ok _) = do attempt (write_disk_metadata opts); pure RunOutcome.created
    settled opts (err e) = do attempt (remove_file t.host opts.target_disk); fail e

    unfoldable pub install_in : ToDiskOpts → List String → String → Exec W RunOutcome
    unfolding session settled command
    install_in opts bootc_install_command container_id = do
      result ← attempt (session container_id bootc_install_command)
      attempt (command ("podman" ∷ "rm" ∷ "-f" ∷ "--" ∷ container_id ∷ []))
      settled opts result

    unfoldable pub create : ToDiskOpts → Exec W RunOutcome
    unfolding install_in get_storage_path disk_size_of create_disk write_units ephemeral_opts
    create opts = do
      get_storage_path opts
      disk_size ← disk_size_of opts
      create_disk opts.additional.format opts.target_disk disk_size
      bootc_install_command ← lift (generate_bootc_install_command t.try_quote opts disk_size)
      units_dir ← write_units
      container_id ← t.run_detached (ephemeral_opts opts disk_size units_dir)
      install_in opts bootc_install_command container_id

    unfoldable pub reused : ToDiskOpts → Validation → Exec W (Option RunOutcome)
    reused opts valid = pure (
        some
          (if opts.additional.dry_run then RunOutcome.dry_run_would_reuse else RunOutcome.cached))
    reused opts (invalid _) =
        if not opts.additional.dry_run
        then with_context (remove_file t.host opts.target_disk)
            (format ("Failed to remove existing disk " ∷ opts.target_disk ∷ []))
          >> pure none
        else pure none

    -- a return from the search for a cached disk; past it, `would_reuse` is false
    unfoldable pub check_existing : ToDiskOpts → Exec W (Option RunOutcome)
    unfolding reused inspect
    check_existing opts = do
      there ← reads (t.host.exists opts.target_disk)
      if there
          then (do
            i ← inspect opts.source_image
            checked ←
                check_cached_disk hash_of t.host opts.target_disk i.digest opts.source_image
                  opts.install
            reused opts checked)
          else pure none

    unfoldable pub regenerate : ToDiskOpts → Option RunOutcome → Exec W RunOutcome
    unfolding create
    regenerate opts (some outcome) = pure outcome
    regenerate opts none =
        if opts.additional.dry_run then pure RunOutcome.dry_run_would_regenerate else create opts

    unfoldable pub run : ToDiskOpts → Exec W RunOutcome
    unfolding normalized check_existing regenerate
    run given = do
      let opts : ToDiskOpts = normalized given
      outcome ← check_existing opts
      regenerate opts outcome
