-- ===== src/Credentials.antt =====
-- crates/bcvk-qemu/src/credentials.rs: systemd's credentials for a machine, and the names of its
-- mount units. `encode` is base64, a library.
pub mod UnitNames
use bcvk.Common.{
  ℕ, String, Bool, true, false, Option, none, some, List, [], ◌∷◌, map, format, join, split,
  replace, strip_prefix, unwrap_or, to_string, if◌then◌else◌,
}

-- the path's components, each with its dashes escaped
unfoldable pub escape_path : String → String
unfolding split replace join
escape_path path = join "-" (map (replace "-" "\\x2d") (split "/" path))

unfoldable pub guest_path_to_unit_name : String → String
unfolding escape_path strip_prefix
guest_path_to_unit_name guest_path =
    let path = unwrap_or (strip_prefix "/" guest_path) guest_path in
    format (escape_path path ∷ ".mount" ∷ [])

unfoldable pub generate_virtiofs_mount_unit : String → String → Bool → String
generate_virtiofs_mount_unit virtiofs_tag guest_path readonly =
    let options = if readonly then "ro,context=system_u:object_r:usr_t:s0" else "rw" in
    format (
      "[Unit]\nDescription=Mount virtiofs tag " ∷ virtiofs_tag ∷ " at " ∷ guest_path
      ∷ "\nConditionPathExists=!/etc/initrd-release\nBefore=remote-fs.target\n\n[Mount]\nWhat="
      ∷ virtiofs_tag ∷ "\nWhere=" ∷ guest_path ∷ "\nType=virtiofs\nOptions=" ∷ options ∷ "\n" ∷ [])

abbrev pub smbios_cred_for_vsock_notify : ℕ → ℕ → String
smbios_cred_for_vsock_notify host_cid port = format (
    "io.systemd.credential:vmm.notify_socket=vsock-stream:"
    ∷ to_string host_cid
    ∷ ":"
    ∷ to_string port
    ∷ [])

abbrev pub storage_opts_tmpfiles_d_lines : String
storage_opts_tmpfiles_d_lines = format (
    "f /etc/environment.d/90-bcvk-storage.conf 0644 root root - "
    ∷ "STORAGE_OPTS=additionalimagestore=/run/host-container-storage\n"
    ∷ "d /etc/systemd/system.conf.d 0755 root root -\n"
    ∷ "f /etc/systemd/system.conf.d/90-bcvk-storage.conf 0644 root root - [Manager]"
    ∷ "\\nDefaultEnvironment=STORAGE_OPTS=additionalimagestore=/run/host-container-storage\n" ∷ [])

abbrev storage_opts_unit : String
storage_opts_unit = format (
    "[Unit]\nDescription=Setup STORAGE_OPTS for bcvk\nDefaultDependencies=no\n"
    ∷ "Before=systemd-user-sessions.service\n\n[Service]\nType=oneshot\n"
    ∷ "ExecStart=/bin/sh -c 'grep -q STORAGE_OPTS /etc/environment || "
    ∷ "echo STORAGE_OPTS=additionalimagestore=/run/host-container-storage >> /etc/environment'\n"
    ∷ "RemainAfterExit=yes\n" ∷ [])

module _ (encode : String → String) where
  unfoldable pub smbios_creds_for_mount_unit : String → String → Bool → List String
  unfolding guest_path_to_unit_name generate_virtiofs_mount_unit
  smbios_creds_for_mount_unit virtiofs_tag guest_path readonly =
      let unit_name = guest_path_to_unit_name guest_path in
      let encoded_mount = encode (generate_virtiofs_mount_unit virtiofs_tag guest_path readonly) in
      let encoded_dropin = encode (format ("[Unit]\nWants=" ∷ unit_name ∷ "\n" ∷ [])) in
      format
        ("io.systemd.credential.binary:systemd.extra-unit." ∷ unit_name ∷ "=" ∷ encoded_mount ∷ [])
      ∷ format (
          "io.systemd.credential.binary:systemd.unit-dropin.remote-fs.target~bcvk-mounts="
          ∷ encoded_dropin ∷ [])
      ∷ []

  abbrev pub smbios_creds_for_storage_opts : List String
  smbios_creds_for_storage_opts =
      format (
        "io.systemd.credential.binary:systemd.extra-unit.bcvk-storage-opts.service="
        ∷ encode storage_opts_unit
        ∷ [])
      ∷ format (
          "io.systemd.credential.binary:systemd.unit-dropin.sysinit.target~bcvk-storage="
          ∷ encode "[Unit]\nWants=bcvk-storage-opts.service\n"
          ∷ [])
      ∷ []

  abbrev pub key_to_root_tmpfiles_d : String → String
  key_to_root_tmpfiles_d pubkey = format (
      "d /root/.ssh 0750 - - -\nf+~ /root/.ssh/authorized_keys 700 - - - "
      ∷ encode pubkey
      ∷ "\n"
      ∷ [])

  abbrev pub smbios_cred_for_root_ssh : String → String
  smbios_cred_for_root_ssh pubkey =
      format (
        "io.systemd.credential.binary:tmpfiles.extra="
        ∷ encode (key_to_root_tmpfiles_d pubkey)
        ∷ [])
