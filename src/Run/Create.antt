-- ===== src/Run/Create.antt =====
-- crates/kit/src/libvirt/run.rs: `create_libvirt_domain_from_disk`, in the order of the code. The
-- temporary files go when they are dropped, which is left out.
use bcvk.Common.{
  ℕ, String, true, false, Option, none, some, List, [], ◌∷◌, ◌++◌, if◌then◌else◌, format, join,
  is_empty,
}
use bcvk.Result.{context}
use bcvk.Host.Exec.{Exec, pure, lift, with_context, create_temp, write_file, ◌>>=◌, ◌>>◌}
use bcvk.Builder.{DomainBuilder, with_qemu_args}
use bcvk.Builder.Document.{build_xml}
use bcvk.Credentials.{key_to_root_tmpfiles_d}
use bcvk.Ephemeral.{journal_path}
use bcvk.Run.{
  LibvirtRunOpts, RunHost, resolved_memory_mb, resolved_cpus, run_virsh_cmd,
  find_available_ssh_port,
}
use bcvk.Run.Configuration.{basic_builder, smbios, netdev}
use bcvk.Run.Mounts.{Collected, add_volumes, process_bind_mounts, add_storage, add_ignition}
use bcvk.Run.Keys.{new_keys, secure_boot_config, add_secure_boot}
use bcvk.Run.Logs.{journal_credentials, add_logs, journal_channels}

module _ {W : Type 0} (r : RunHost W) where
  abbrev mounts_dropin : List String → List String
  mounts_dropin names =
      if is_empty names
      then []
      else format (
          "io.systemd.credential.binary:systemd.unit-dropin.remote-fs.target~bcvk-mounts="
          ∷ r.encode (format ("[Unit]\nWants=" ∷ join " " names ∷ "\n" ∷ []))
          ∷ [])
        ∷ []

  abbrev mounts_of : LibvirtRunOpts → Collected → Exec W Collected
  mounts_of opts c = do
    writable ← process_bind_mounts r opts.bind_mounts "bcvk-bind-" false c
    both ← process_bind_mounts r opts.bind_mounts_ro "bcvk-bind-ro-" true writable
    add_storage r opts.bind_storage_ro both

  -- the arguments of QEMU: the credentials, and the network
  abbrev qemu_args : LibvirtRunOpts → ℕ → Collected → List String → List String
  qemu_args opts ssh_port c journal =
      smbios (
        (format ("io.systemd.credential.binary:tmpfiles.extra=" ∷ r.encode c.tmpfiles_content ∷ [])
          ∷ c.smbios_creds)
        ++ (mounts_dropin c.mount_unit_names ++ (journal ++ opts.extra_smbios_credentials)))
      ++ ("-netdev"
          ∷ netdev ssh_port opts.port_mappings
          ∷ "-device"
          ∷ "virtio-net-pci,netdev=ssh0,addr=0x3"
          ∷ [])

  -- the part of the creation that comes to the builder of the domain
  unfoldable pub domain_builder :
      Option String → String → String → String → LibvirtRunOpts → Exec W DomainBuilder
  unfolding new_keys secure_boot_config add_secure_boot journal_credentials add_logs
      journal_channels
  domain_builder connect_uri domain_name disk_path image_digest opts = do
    ssh_port ← find_available_ssh_port r
    keys ← new_keys r
    memory ← lift (resolved_memory_mb r opts)
    let cpus : ℕ = resolved_cpus r opts
    config ← secure_boot_config r connect_uri domain_name opts opts.secure_boot_keys
    let key : String = r.encode keys.0
    let basic : DomainBuilder =
        basic_builder domain_name disk_path image_digest key memory cpus ssh_port opts
    secured ← add_secure_boot r config basic
    with_volumes ← add_volumes r opts.raw_volumes secured
    c ← mounts_of opts (record {
      builder = with_volumes;
      smbios_creds = [];
      mount_unit_names = [];
      tmpfiles_content = key_to_root_tmpfiles_d r.encode keys.1;
    })
    ignited ← add_ignition r connect_uri domain_name opts.ignition_config c.builder
    journal ← journal_credentials r (elim opts.log_dir [ none ↦ none | some d ↦ journal_path d ])
    logged ← add_logs r opts (journal_channels r opts.log_dir ignited)
    pure (with_qemu_args (qemu_args opts ssh_port c journal) logged)

  unfoldable pub define_domain :
      Option String → String → LibvirtRunOpts → String → Exec W (Unit {0})
  define_domain connect_uri domain_name opts xml_path =
      if opts.transient
      then run_virsh_cmd r connect_uri ("create" ∷ xml_path ∷ [])
          "Failed to create transient libvirt domain"
      else run_virsh_cmd r connect_uri ("define" ∷ xml_path ∷ []) "Failed to define libvirt domain"
        >> run_virsh_cmd r connect_uri ("start" ∷ domain_name ∷ []) "Failed to start libvirt domain"

  unfoldable pub create_libvirt_domain_from_disk :
      Option String → String → String → String → LibvirtRunOpts → Exec W (Unit {0})
  unfolding domain_builder define_domain
  create_libvirt_domain_from_disk connect_uri domain_name disk_path image_digest opts = do
    builder ← domain_builder connect_uri domain_name disk_path image_digest opts
    events ← lift (
        context (build_xml r.escape r.default_vcpus r.new_uuid r.arch builder)
          "Failed to build domain XML")
    xml_path ← create_temp r.host "bcvk-libvirt" "" ""
    with_context (write_file r.host xml_path (r.document events)) "Failed to write domain XML"
    define_domain connect_uri domain_name opts xml_path
