-- ===== src/Ephemeral/Podman/Command.antt =====
-- crates/kit/src/run_ephemeral.rs: `prepare_run_command_with_temp` and `run_detached`. The command
-- is its arguments; the devices for `--execute`, which are collected and not used, are left out.
use bcvk.Common.{
  ℕ, zero, suc, String, Bool, true, false, not, Option, none, some, List, [], ◌∷◌, ◌++◌, map,
  if◌then◌else◌, format, join, trim, starts_with, unwrap_or, to_string, is_empty_text, is_some,
}
use bcvk.Common.Text.Paths.{join_path, parent, file_name}
use bcvk.Result.{Result, ok, err, ok_or}
use bcvk.Host.{Output, Action}
use bcvk.Host.Exec.{Exec, pure, fail, lift, reads, with_context, ◌>>=◌, ◌>>◌}
use bcvk.Storage.{StorageHost, detect_container_storage_path, validate_container_storage_path}
use bcvk.Ephemeral.{
  LogDir, Ipv4Addr, Ipv6Addr, journal_path, journal_initrd_path, console_path,
  check_ignition_support, read_host_dns_servers,
}
use bcvk.Ephemeral.DiskFiles.{DiskHost, process_disk_files}
use bcvk.Ephemeral.Options.{RunEphemeralOpts}
use bcvk.Ephemeral.Podman.Hint.{with_hint_if}
use bcvk.Ephemeral.Podman.{
  HostMount, parse_mount, mount_spec, volumes, container_args, sandbox_args, disk_args, units_args,
  dns_args, disk_env,
}

-- libraries, the file system, and podman
pub record PodmanHost (W : Type 0) : Type 0 where
  pub storage : StorageHost W
  pub disks : DiskHost W
  pub labels : String → Result (String → Option String)
  pub tempdir : W → Result String × W
  -- the writing of a file that can be executed
  pub write_executable : String → String → W → Result (Unit {0}) × W
  pub current_exe : Result String
  pub current_dir : W → Result String
  pub try_exists : String → W → Result Bool
  pub canonicalize : String → W → Result String
  pub read_to_string : String → W → Option String
  pub ipv4 : String → Option Ipv4Addr
  pub ipv6 : String → Option Ipv6Addr
  -- opening a file for writing, which creates or empties it, and the number that `take_fd` gives
  pub open_truncated : String → W → Result (Unit {0}) × W
  pub take_fd : ℕ → ℕ
  -- serde_json
  pub to_json : RunEphemeralOpts → String
  pub entrypoint_script : String
  -- `podman` with arguments
  pub run : List String → W → Result Output × W

module _ {W : Type 0} (p : PodmanHost W) where
  unfoldable asks : {A : Type 0} → (W → Result A) → Exec W A
  asks f s = (f s.world, s)

  unfoldable pub check_ignition : RunEphemeralOpts → Exec W (Unit {0})
  unfolding asks
  check_ignition opts =
      if is_some opts.ignition_config
      then (do
        has_ignition ←
            asks (λ w. check_ignition_support (λ args. p.storage.podman args w) p.labels opts.image)
        if not has_ignition
            then fail "Image does not support Ignition. See man bcvk-ephemeral-run for details."
            else pure tt)
      else pure tt

  unfoldable pub write_entrypoint : Exec W String
  write_entrypoint s =
      let (dir, w) = p.tempdir s.world in
      elim dir [
        | err e ↦ (err e, record { world = w; log = Action.create_temp "" ∷ s.log })
        | ok td ↦
            let path : String = format (td ∷ "/entrypoint" ∷ []) in
            let (done, w') = p.write_executable path p.entrypoint_script w in
            let log = Action.write_file path ∷ Action.create_temp "" ∷ s.log in
            (elim done [ ok _ ↦ ok path | err e ↦ err e ], record { world = w'; log = log })
      ]

  -- the container storage, before the other mounts
  unfoldable pub with_storage : Bool → List HostMount → Exec W (List HostMount)
  with_storage false mounts = pure mounts
  with_storage true mounts = do
    storage_path ←
        with_context (detect_container_storage_path p.storage)
          "Failed to detect container storage path. Use --ro-bind to specify manually."
    with_context (validate_container_storage_path p.storage storage_path)
        "Container storage validation failed"
    pure ((storage_path, "hoststorage", true) ∷ mounts)

  unfoldable pub host_mounts : RunEphemeralOpts → Exec W (List HostMount)
  unfolding with_storage
  host_mounts opts =
      with_storage opts.bind_storage_ro
        (map (parse_mount false) opts.bind_mounts ++ map (parse_mount true) opts.ro_bind_mounts)

  absolute_path : String → Exec W String
  unfolding asks
  absolute_path path =
      if starts_with "/" path
      then pure path
      else asks p.current_dir >>= λ dir. pure (join_path dir path)

  unfoldable pub ignition_args : Option String → Exec W (List String)
  unfolding absolute_path asks
  ignition_args none = pure []
  ignition_args (some ignition_path) = do
    ignition_abs ← absolute_path ignition_path
    there ← asks (p.try_exists ignition_abs)
    if not there
        then fail (format ("Ignition config file not found: " ∷ ignition_abs ∷ []))
        else pure ("-v" ∷ format (ignition_abs ∷ ":/run/ignition-config.json:ro" ∷ []) ∷ [])

  unfoldable open_truncated : String → Exec W (Unit {0})
  open_truncated path s =
      let (done, w) = p.open_truncated path s.world in
      (done, record { world = w; log = Action.write_file path ∷ s.log })

  -- the numbers of the descriptors
  unfoldable pub open_journals : ℕ → List (Option String) → Exec W (List String)
  unfolding open_truncated
  open_journals taken [] = pure []
  open_journals taken (none ∷ rest) = open_journals taken rest
  open_journals taken (some dest ∷ rest) = do
    with_context (open_truncated dest) "Opening journal log file"
    more ← open_journals (suc taken) rest
    pure (to_string (p.take_fd taken) ∷ more)

  abbrev preserved : List String → List String
  preserved [] = []
  preserved (fd ∷ rest) = "--preserve-fd" ∷ fd ∷ preserved rest

  abbrev wants_journal : Option LogDir → Bool
  wants_journal none = false
  wants_journal (some d) = d.journal

  abbrev of_log_dir : (LogDir → Option String) → Option LogDir → Option String
  of_log_dir f none = none
  of_log_dir f (some d) = f d

  unfoldable pub journal_args : Option LogDir → Exec W (List String)
  unfolding open_journals
  journal_args log_dir =
      if wants_journal log_dir
      then (do
        fd_nums ←
            open_journals zero
              (of_log_dir journal_path log_dir ∷ of_log_dir journal_initrd_path log_dir ∷ [])
        pure (
            preserved fd_nums
            ++ ("-e" ∷ format ("BCVK_JOURNAL_FDS=" ∷ join "," fd_nums ∷ []) ∷ [])))
      else pure []

  unfoldable pub console_args : Option String → Exec W (List String)
  unfolding asks
  console_args none = pure []
  console_args (some path) = do
    let dir : String = if is_empty_text (parent path) then "." else parent path
    abs_parent ←
        with_context (asks (p.canonicalize dir)) "--log-dir console parent directory not found"
    name ← lift (ok_or (file_name path) "--log-dir console path has no file name")
    pure (
        "-v"
        ∷ format (abs_parent ∷ ":/run/bcvk-console-log:rw" ∷ [])
        ∷ "-e"
        ∷ format ("BCVK_CONSOLE_PATH=/run/bcvk-console-log/" ∷ name ∷ [])
        ∷ [])

  abbrev config_env : RunEphemeralOpts → Option (List String) → List String
  config_env opts dns =
      "-e" ∷ format ("BCK_CONFIG=" ∷ p.to_json (record opts { host_dns_servers = dns }) ∷ []) ∷ []

  unfoldable pub prepare_run_command_with_temp : RunEphemeralOpts → Exec W (List String)
  unfolding check_ignition write_entrypoint host_mounts ignition_args journal_args console_args asks
  prepare_run_command_with_temp opts = do
    check_ignition opts
    entrypoint_path ← write_entrypoint
    self_exe ← lift p.current_exe
    disks ← process_disk_files p.disks opts.mount_disk_files opts.image
    mounts ← host_mounts opts
    vhost_vsock ← asks (p.try_exists "/dev/vhost-vsock")
    ignition ← ignition_args opts.ignition_config
    dns ← reads (λ w. read_host_dns_servers p.ipv4 p.ipv6 (λ path. p.read_to_string path w))
    journal ← journal_args opts.common.log_dir
    console ← console_args (of_log_dir console_path opts.common.log_dir)
    let entrypoint : String = unwrap_or opts.debug_entrypoint "/var/lib/bcvk/entrypoint"
    pure (
        container_args opts.podman
        ++ (sandbox_args vhost_vsock entrypoint_path self_exe opts.image
            ++ (volumes (map mount_spec mounts)
                ++ (disk_args disks
                    ++ (units_args opts.systemd_units_dir
                        ++ (ignition
                            ++ (dns_args dns
                                ++ (config_env opts dns
                                    ++ (journal
                                        ++ (console
                                            ++ (disk_env disks
                                                ++ ("--" ∷ opts.image ∷ entrypoint ∷ []))))))))))))

  unfoldable podman : List String → Exec W Output
  podman args s =
      let (output, w) = p.run args s.world in
      (output, record { world = w; log = Action.command ("podman" ∷ args) ∷ s.log })

  abbrev sees : W → String → Bool
  sees w path = elim (p.try_exists path w) [ ok there ↦ there | err _ ↦ false ]

  unfoldable pub run_detached : RunEphemeralOpts → Exec W String
  unfolding prepare_run_command_with_temp podman with_hint_if
  run_detached opts = do
    args ← prepare_run_command_with_temp opts
    output ← with_context (podman args) "Failed to execute podman command"
    visible ← reads sees
    if not output.success
        then fail (
            with_hint_if (format ("Podman command failed: " ∷ output.stderr ∷ [])) output.stderr
              visible)
        else pure (trim output.stdout)
