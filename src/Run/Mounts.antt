-- ===== src/Run/Mounts.antt =====
-- crates/kit/src/libvirt/run.rs: the volumes, the bind mounts, the container storage and the Ignition
-- configuration that a domain is given. A step takes the builder and the credentials that were
-- collected so far, and gives them back.
use bcvk.Common.{
  ℕ, suc, String, Bool, true, false, Option, none, some, List, [], ◌∷◌, ◌++◌, ◌==◌, ◌||◌,
  if◌then◌else◌, format, to_string,
}
use bcvk.Common.Text.Paths.{join_path}
use bcvk.Result.{Result, ok, err}
use bcvk.Host.{Action}
use bcvk.Host.Exec.{Exec, pure, fail, lift, reads, with_context, ◌>>=◌, ◌>>◌}
use bcvk.Builder.{
  DomainBuilder, VirtiofsFilesystem, with_metadata, with_virtiofs_filesystem, add_fw_cfg,
  with_ignition_disk,
}
use bcvk.Credentials.{
  guest_path_to_unit_name, generate_virtiofs_mount_unit, storage_opts_tmpfiles_d_lines,
  smbios_creds_for_storage_opts,
}
use bcvk.Pool.{get_libvirt_storage_pool_path}
use bcvk.RunOptions.{BindMount, validate_bind_mount}
use bcvk.Storage.{detect_container_storage_path, validate_container_storage_path}
use bcvk.Status.{LibvirtVersion, supports_readonly_virtiofs, parse_libvirt_version}
use bcvk.Run.{RunHost, parse_volume_mount, storage_host}

pub record Collected : Type 0 where
  pub builder : DomainBuilder
  pub smbios_creds : List String
  pub mount_unit_names : List String
  pub tmpfiles_content : String

module _ {W : Type 0} (r : RunHost W) where
  unfoldable pub add_volumes : List String → DomainBuilder → Exec W DomainBuilder
  unfolding parse_volume_mount
  add_volumes [] b = pure b
  add_volumes (volume_str ∷ rest) b = do
    (host_path, tag) ←
        with_context (parse_volume_mount r volume_str)
          (format ("Failed to parse volume mount '" ∷ volume_str ∷ "'" ∷ []))
    add_volumes rest (
        with_virtiofs_filesystem (record { source_dir = host_path; tag = tag; readonly = false }) b)

  -- the credential of a mount unit
  abbrev mount_cred : String → String → String
  mount_cred unit_name content =
      format (
        "io.systemd.credential.binary:systemd.extra-unit."
        ∷ unit_name
        ∷ "="
        ∷ r.encode content
        ∷ [])

  abbrev mounted : String → Bool → BindMount → Collected → Collected
  mounted tag readonly m c =
      let unit_name = guest_path_to_unit_name m.guest_path in
      let content = generate_virtiofs_mount_unit tag m.guest_path readonly in
      record c {
        builder =
            with_virtiofs_filesystem
              (record { source_dir = m.host_path; tag = tag; readonly = readonly }) c.builder;
        smbios_creds = c.smbios_creds ++ (mount_cred unit_name content ∷ []);
        mount_unit_names = c.mount_unit_names ++ (unit_name ∷ []);
      }

  unfoldable pub bind_mounts_from :
      ℕ → List BindMount → String → Bool → Collected → Exec W Collected
  bind_mounts_from idx [] tag_prefix readonly c = pure c
  bind_mounts_from idx (m ∷ rest) tag_prefix readonly c = do
    checked ← reads (λ w. validate_bind_mount (λ p. r.host.exists p w) (λ p. r.is_dir p w) m)
    with_context (lift checked) "Failed to validate bind mount"
    let tag : String = format (tag_prefix ∷ to_string idx ∷ [])
    bind_mounts_from (suc idx) rest tag_prefix readonly (mounted tag readonly m c)

  unfoldable pub process_bind_mounts : List BindMount → String → Bool → Collected → Exec W Collected
  unfolding bind_mounts_from
  process_bind_mounts bind_mounts tag_prefix readonly c =
      bind_mounts_from 0 bind_mounts tag_prefix readonly c

  abbrev unsupported : Option LibvirtVersion → String
  unsupported (some v) = format (
      "The --bind-storage-ro flag requires libvirt 11.0 or later for readonly virtiofs support. "
      ∷ "Current version: " ∷ v.full_version ∷ [])
  unsupported none = format (
      "Could not parse libvirt version. The --bind-storage-ro flag requires libvirt 11.0+ with "
      ∷ "rust-based virtiofsd support. Please ensure you have a compatible libvirt version installed."
      ∷ [])

  unfoldable pub check_libvirt_readonly_support : Exec W (Unit {0})
  check_libvirt_readonly_support = do
    version ← with_context (parse_libvirt_version r.host) "Failed to check libvirt version"
    if supports_readonly_virtiofs version then pure tt else fail (unsupported version)

  abbrev guest_storage : String
  guest_storage = "/run/host-container-storage"

  abbrev stored : String → Collected → Collected
  stored storage_path c =
      let unit_name = guest_path_to_unit_name guest_storage in
      let content = generate_virtiofs_mount_unit "hoststorage" guest_storage true in
      let storage : VirtiofsFilesystem = record {
        source_dir = storage_path;
        tag = "hoststorage";
        readonly = true;
      } in
      record {
        builder = with_metadata "bootc:storage-path" storage_path (
            with_metadata "bootc:bind-storage-ro" "true"
              (with_virtiofs_filesystem storage c.builder));
        smbios_creds =
            c.smbios_creds
            ++ (mount_cred unit_name content ∷ smbios_creds_for_storage_opts r.encode);
        mount_unit_names = c.mount_unit_names ++ (unit_name ∷ []);
        tmpfiles_content = format (c.tmpfiles_content ∷ storage_opts_tmpfiles_d_lines ∷ []);
      }

  unfoldable pub add_storage : Bool → Collected → Exec W Collected
  unfolding check_libvirt_readonly_support
  add_storage false c = pure c
  add_storage true c = do
    with_context check_libvirt_readonly_support "libvirt version compatibility check failed"
    storage_path ←
        with_context (detect_container_storage_path (storage_host r))
          "Failed to detect container storage path."
    with_context (validate_container_storage_path (storage_host r) storage_path)
        "Container storage validation failed"
    pure (stored storage_path c)

  unfoldable copy : String → String → Exec W (Unit {0})
  copy from to s =
      let (done, w) = r.copy from to s.world in
      (done, record { world = w; log = Action.write_file to ∷ s.log })

  unfoldable pub inject_ignition : String → DomainBuilder → Result DomainBuilder
  inject_ignition path b =
      if r.arch == "x86_64" || r.arch == "aarch64"
      then ok (add_fw_cfg "opt/com.coreos/config" path b)
      else if r.arch == "s390x" || r.arch == "powerpc64le"
      then ok (with_ignition_disk path b)
      else err (
          format (
            "Ignition config injection not supported on architecture: " ∷ r.arch
            ∷ "\nSupported architectures: x86_64, aarch64, s390x, powerpc64le" ∷ []))

  unfoldable pub add_ignition :
      Option String → String → Option String → DomainBuilder → Exec W DomainBuilder
  unfolding copy inject_ignition
  add_ignition connect_uri domain_name none b = pure b
  add_ignition connect_uri domain_name (some ignition_path) b = do
    pool_path ←
        with_context (get_libvirt_storage_pool_path r.host connect_uri)
          "Failed to get libvirt storage pool path for Ignition config"
    let persistent : String = join_path pool_path (format (domain_name ∷ "_ignition.json" ∷ []))
    with_context (copy ignition_path persistent)
        (format ("Failed to copy Ignition config to " ∷ persistent ∷ []))
    injected ← lift (inject_ignition persistent b)
    pure (
        with_metadata "bootc:ignition-persistent-path" persistent
          (with_metadata "bootc:ignition-config" ignition_path injected))
