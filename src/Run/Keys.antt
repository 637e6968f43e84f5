-- ===== src/Run/Keys.antt =====
-- crates/kit/src/libvirt/run.rs: the keys of a new domain, for ssh and for secure boot.
use bcvk.Common.{String, Bool, true, false, Option, none, some, ◌∷◌}
use bcvk.Common.Text.Paths.{join_path}
use bcvk.Result.{context, ensure}
use bcvk.Host.{Action}
use bcvk.Host.Exec.{Exec, pure, lift, with_context, ◌>>=◌, ◌>>◌}
use bcvk.Builder.{DomainBuilder, FirmwareType, with_metadata, with_ovmf_code_path, with_nvram}
use bcvk.Firmware.{FirmwareInfo, find_secure_boot_firmware}
use bcvk.Firmware.Keys.{SecureBootConfig, setup_secure_boot, vars_filename}
use bcvk.Pool.{get_libvirt_storage_pool_path}
use bcvk.Run.{LibvirtRunOpts, RunHost}

abbrev is_secure : FirmwareType → Bool
is_secure FirmwareType.uefi_secure = true
is_secure _ = false

module _ {W : Type 0} (r : RunHost W) where
  unfoldable tempdir : Exec W String
  tempdir s =
      let (d, w) = r.tempdir s.world in
      (d, record { world = w; log = Action.create_temp "" ∷ s.log })

  unfoldable generate_keys : String → Exec W (String × String)
  generate_keys dir s =
      let (k, w) = r.generate_ssh_keypair dir "id_rsa" s.world in
      (k, record { world = w; log = Action.create_temp dir ∷ s.log })

  unfoldable read_text : String → String → Exec W String
  read_text path message s = (context (r.read_to_string path s.world) message, s)

  -- the texts of the new private and public keys
  unfoldable pub new_keys : Exec W (String × String)
  unfolding tempdir generate_keys read_text
  new_keys = do
    dir ← with_context tempdir "Failed to create temporary directory"
    paths ← generate_keys dir
    private_key ← read_text paths.0 "Failed to read generated private key"
    public_key ← read_text paths.1 "Failed to read generated public key"
    pure (private_key, public_key)

  unfoldable pub secure_boot_config :
      Option String → String → LibvirtRunOpts → Option String → Exec W (Option SecureBootConfig)
  secure_boot_config connect_uri domain_name opts none = pure none
  secure_boot_config connect_uri domain_name opts (some keys) = do
    lift (
        ensure (is_secure opts.firmware)
          "Condition failed: `opts.firmware == FirmwareType::UefiSecure`")
    pool_path ←
        with_context (get_libvirt_storage_pool_path r.host connect_uri)
          "Failed to get libvirt storage pool path for secure boot vars"
    config ←
        with_context
          (setup_secure_boot r.command r.files r.arch keys
            (join_path pool_path (vars_filename domain_name)))
          "Failed to setup secure boot"
    pure (some config)

  unfoldable firmware : Exec W FirmwareInfo
  firmware s = (
    context (find_secure_boot_firmware (r.files s.world) r.arch)
        "Failed to find secure boot firmware",
    s,
  )

  unfoldable pub canonicalize : String → Exec W String
  canonicalize path s = (r.canonicalize path s.world, s)

  unfoldable pub add_secure_boot : Option SecureBootConfig → DomainBuilder → Exec W DomainBuilder
  unfolding firmware canonicalize
  add_secure_boot none b = pure b
  add_secure_boot (some config) b = do
    info ← firmware
    vars_path ← with_context (canonicalize config.vars_path) "Canonicalizing secureboot vars path"
    pure (
        with_metadata "bootc:secure-boot-keys" config.key_dir (
          with_nvram vars_path config.vars_format
            (with_ovmf_code_path info.code_path info.code_format b)))
