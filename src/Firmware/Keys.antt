-- ===== src/Firmware/Keys.antt =====
-- crates/kit/src/libvirt/secureboot.rs: the keys of secure boot, and the variables of the firmware
-- that they are enrolled in. The commands that are run are a parameter.
use bcvk.Common.{String, Bool, true, not, Option, List, [], ◌∷◌, if◌then◌else◌, format, trim}
use bcvk.Common.Text.Paths.{join_path}
use bcvk.Result.{Result, ok_or}
use bcvk.Host.{Action}
use bcvk.Host.Exec.{Exec, pure, fail, lift, ◌>>=◌, ◌>>◌}
use bcvk.Firmware.{Files, FirmwareInfo, find_firmware_from_descriptors}

-- `std::process::Output`, where what is printed may not be UTF-8
pub record CommandOutput : Type 0 where
  pub success : Bool
  pub stdout : Option String
  pub stderr : String

pub record SecureBootKeys : Type 0 where
  pub pk_cert : String
  pub kek_cert : String
  pub db_cert : String
  pub guid : String

pub record SecureBootConfig : Type 0 where
  pub key_dir : String
  pub vars_path : String
  pub vars_format : String
  pub guid : String

-- the arguments of `virt-fw-vars`
unfoldable pub enrolling : SecureBootKeys → String → String → List String
enrolling keys ovmf_vars_path output_path =
    "virt-fw-vars" ∷ "--input" ∷ ovmf_vars_path ∷ "--secure-boot" ∷ "--set-pk" ∷ keys.guid
    ∷ keys.pk_cert ∷ "--add-kek" ∷ keys.guid ∷ keys.kek_cert ∷ "--add-db" ∷ keys.guid ∷ keys.db_cert
    ∷ "-o" ∷ output_path ∷ []

unfoldable pub vars_filename : String → String
vars_filename domain_name = format (domain_name ∷ "_OVMF_VARS.fd" ∷ [])

module _ {W : Type 0} (run : List String → W → Result CommandOutput × W) where
  unfoldable pub command : List String → Exec W CommandOutput
  command args s =
      let (r, w) = run args s.world in (r, record { world = w; log = Action.command args ∷ s.log })

  unfoldable pub expect : List String → String → Exec W (Unit {0})
  unfolding command
  expect args message = do
    output ← command args
    if not output.success then fail message else pure tt

  unfoldable pub check_files : String → List (String × String) → Exec W (Unit {0})
  unfolding expect
  check_files key_dir [] = pure tt
  check_files key_dir ((path, name) ∷ rest) =
      expect ("test" ∷ "-f" ∷ path ∷ [])
        (format ("Required secure boot file " ∷ name ∷ " not found in " ∷ key_dir ∷ []))
      >> check_files key_dir rest

  unfoldable pub keys_in : String → String → SecureBootKeys
  keys_in key_dir guid = record {
    pk_cert = join_path key_dir "PK.crt";
    kek_cert = join_path key_dir "KEK.crt";
    db_cert = join_path key_dir "db.crt";
    guid = guid;
  }

  -- `SecureBootKeys::load`
  unfoldable pub load : String → Exec W SecureBootKeys
  unfolding expect check_files keys_in
  load key_dir = do
    expect ("test" ∷ "-d" ∷ key_dir ∷ []) (
        format (
          "Secure boot key directory not found: " ∷ key_dir ∷ ". Please generate keys externally."
          ∷ []))
    let guid_file : String = join_path key_dir "GUID.txt"
    guid_output ← command ("cat" ∷ guid_file ∷ [])
    if not guid_output.success
        then fail (
            format (
              "Failed to read GUID from " ∷ guid_file ∷ ". Ensure keys are properly generated."
              ∷ []))
        else pure tt
    guid ← lift (ok_or guid_output.stdout "Invalid UTF-8 in GUID file")
    let keys : SecureBootKeys = keys_in key_dir (trim guid)
    check_files key_dir
        ((keys.pk_cert, "PK.crt") ∷ (keys.kek_cert, "KEK.crt") ∷ (keys.db_cert, "db.crt") ∷ [])
    pure keys

  unfoldable pub customize_ovmf_vars : SecureBootKeys → String → String → Exec W (Unit {0})
  unfolding expect enrolling
  customize_ovmf_vars keys ovmf_vars_path output_path = do
    expect ("which" ∷ "virt-fw-vars" ∷ []) "virt-fw-vars tool not found"
    output ← command (enrolling keys ovmf_vars_path output_path)
    if not output.success
        then fail (format ("Failed to customize OVMF variables: " ∷ output.stderr ∷ []))
        else pure tt

  module _ (files : W → Files) (host_arch : String) where
    -- the search, in the world at that time
    unfoldable pub search_firmware : Bool → Exec W FirmwareInfo
    unfolding find_firmware_from_descriptors
    search_firmware require_secure_boot s =
        (find_firmware_from_descriptors (files s.world) host_arch require_secure_boot, s)

    unfoldable pub setup_secure_boot : String → String → Exec W SecureBootConfig
    unfolding load search_firmware customize_ovmf_vars
    setup_secure_boot key_dir vars_output_path = do
      keys ← load key_dir
      firmware_info ← search_firmware true
      customize_ovmf_vars keys firmware_info.vars_path vars_output_path
      pure (record {
        key_dir = key_dir;
        vars_path = vars_output_path;
        vars_format = firmware_info.vars_format;
        guid = keys.guid;
      })
