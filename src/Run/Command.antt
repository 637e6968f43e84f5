-- ===== src/Run/Command.antt =====
-- crates/kit/src/libvirt/run.rs: `run`, the command. What is printed is left out; the waiting for ssh
-- and the login are parameters, as the installation to a disk and the hash are of the base disks.
use bcvk.Common.{
  suc, Char, String, Bool, true, not, ◌||◌, Option, none, some, List, [], ◌∷◌, ◌++◌, if◌then◌else◌,
  format, length, starts_with, is_some,
}
use bcvk.Result.{Result, ok, err, ok_or}
use bcvk.Host.Exec.{Exec, pure, fail, lift, with_context, ◌>>=◌, ◌>>◌}
use bcvk.DomainList.{list_all_domains}
use bcvk.Rm.{remove_vm_forced}
use bcvk.Cache.{CacheInputs, InstallOptions}
use bcvk.BaseDisk.{find_or_create_base_disk}
use bcvk.ToDisk.{ToDiskOpts}
use bcvk.BaseDisk.Clone.{clone_from_base}
use bcvk.Ephemeral.{LogDir, check_ignition_support}
use bcvk.RunOptions.{validate_labels}
use bcvk.RunOptions.Names.{contains_name, generate_unique_vm_name}
use bcvk.StartStop.{LibvirtSshOpts, login}
use bcvk.Run.{LibvirtRunOpts, RunHost}
use bcvk.Run.Create.{create_libvirt_domain_from_disk}

unfoldable pub check_log_dir : Option LogDir → Result (Unit {0})
check_log_dir none = ok tt
check_log_dir (some d) =
    if starts_with "/" d.path
    then ok tt
    else err (format ("--log-dir PATH must be absolute: " ∷ d.path ∷ []))

unfoldable adjusted_install : LibvirtRunOpts → InstallOptions
adjusted_install opts =
    let transport : Option String =
      if opts.update_from_host then some "containers-storage" else opts.install.target_transport in
    let karg : List String =
      if is_some opts.ignition_config
      then opts.install.karg ++ ("ignition.platform.id=qemu" ∷ [])
      else opts.install.karg in
    record opts.install { target_transport = transport; karg = karg }

-- the options that the code changes: the storage of the host, and the kernel's argument for Ignition
unfoldable pub adjusted : LibvirtRunOpts → LibvirtRunOpts
unfolding adjusted_install
adjusted opts = record opts {
  bind_storage_ro = opts.update_from_host || opts.bind_storage_ro;
  install = adjusted_install opts;
}

module _ {W : Type 0} (r : RunHost W) (connect_uri : Option String) where
  unfoldable pub replace_or_fail : LibvirtRunOpts → String → Exec W (Unit {0})
  replace_or_fail opts name =
      if opts.replace
      then with_context (remove_vm_forced r.host connect_uri name true)
          (format ("Failed to remove existing VM '" ∷ name ∷ "'" ∷ []))
      else fail (format ("VM '" ∷ name ∷ "' already exists. Use --replace to replace it." ∷ []))

  -- The search for a name ends with one within these rounds.
  unfoldable pub vm_name_of :
      (Char → Bool) → LibvirtRunOpts → List String → Option String → Exec W String
  unfolding replace_or_fail
  vm_name_of is_alphanumeric opts existing none = lift (
      ok_or (generate_unique_vm_name is_alphanumeric (suc (length existing)) opts.image existing)
        "no name")
  vm_name_of is_alphanumeric opts existing (some name) =
      if contains_name name existing then replace_or_fail opts name >> pure name else pure name

  -- `check_ignition_support` of run.rs, the same text as that of run_ephemeral.rs
  unfoldable supports_ignition : String → Exec W Bool
  supports_ignition image s =
      (check_ignition_support (λ args. r.podman args s.world) r.labels image, s)

  unfoldable try_exists : String → Exec W Bool
  try_exists path s = (r.try_exists path s.world, s)

  unfoldable pub inspect : String → Exec W String
  inspect image s = (r.inspect image s.world, s)

  unfoldable pub check_ignition : String → Option String → Exec W (Unit {0})
  unfolding supports_ignition try_exists
  check_ignition image none = pure tt
  check_ignition image (some ignition_path) = do
    has_ignition ← supports_ignition image
    if not has_ignition
        then fail "Image does not support Ignition. See man bcvk-libvirt-run for details."
        else pure tt
    there ← try_exists ignition_path
    if not there
        then fail (format ("Ignition config file not found: " ∷ ignition_path ∷ []))
        else pure tt

  -- the check of the options, the listing of the domains and the choice of a name
  unfoldable pub named : (Char → Bool) → LibvirtRunOpts → Exec W String
  unfolding vm_name_of check_log_dir
  named is_alphanumeric opts = do
    lift (validate_labels opts.label)
    lift (check_log_dir opts.log_dir)
    existing ← with_context (list_all_domains r.host connect_uri) "Failed to list existing domains"
    vm_name_of is_alphanumeric opts existing opts.name

  module _ (hash_of : CacheInputs → String) (to_disk : ToDiskOpts → Exec W (Unit {0})) where
    -- the domain's disk: the base disk itself, or a clone of it
    unfoldable pub disk_of : String → String → LibvirtRunOpts → Exec W String
    disk_of vm_name image_digest opts = do
      base_disk_path ←
          with_context
            (find_or_create_base_disk r.host hash_of connect_uri to_disk opts.image image_digest
              opts.install opts.virtiofsd_binary)
            "Failed to find or create base disk"
      if opts.transient
          then pure base_disk_path
          else with_context (clone_from_base r.host connect_uri base_disk_path vm_name)
              "Failed to clone VM disk from base"

    unfoldable pub created : LibvirtRunOpts → String → Exec W (Unit {0})
    unfolding check_ignition disk_of adjusted inspect
    created opts vm_name = do
      image_digest ← inspect opts.image
      check_ignition opts.image opts.ignition_config
      let opts' : LibvirtRunOpts = adjusted opts
      disk_path ← disk_of vm_name image_digest opts'
      with_context
          (create_libvirt_domain_from_disk r connect_uri vm_name disk_path image_digest opts')
          "Failed to create libvirt domain"

    module _ (wait_for_ssh_ready : String → Exec W (Unit {0}))
        (ssh : LibvirtSshOpts → Exec W (Unit {0})) where
      unfoldable pub connect : LibvirtRunOpts → String → Exec W (Unit {0})
      connect opts vm_name =
          if opts.ssh_wait
          then wait_for_ssh_ready vm_name
          else if opts.ssh
          then wait_for_ssh_ready vm_name >> ssh (login vm_name)
          else pure tt

      unfoldable pub run : (Char → Bool) → LibvirtRunOpts → Exec W (Unit {0})
      unfolding named created connect
      run is_alphanumeric opts = do
        vm_name ← named is_alphanumeric opts
        created opts vm_name
        connect opts vm_name
