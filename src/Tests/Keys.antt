-- ===== src/Tests/Keys.antt =====
-- The theorems on firmware and on the keys of secure boot, applied.
use bcvk.Common.{
  ℕ, zero, String, true, some, none, List, [], ◌∷◌, ◌≡◌, refl, contains, ◌==◌, if◌then◌else◌,
  rsplit_once, strip_prefix, trim, ends_with,
}
use bcvk.Common.Text.Paths.{join_path}
use bcvk.Result.{Result, ok}
use bcvk.Host.{Machine}
use bcvk.Host.Exec.{◌>>=◌}
use bcvk.Firmware.{
  EnvVar, Files, FirmwareDescriptor, FirmwareInfo, WalkComponent, find_firmware_from_descriptors,
  has_enrolled_keys, supports_architecture, supports_secure_boot, list_firmware_descriptors,
  get_qemu_architecture,
}
use bcvk.Firmware.Choice.{Chosen, find_firmware_from_descriptors-Chosen}
use bcvk.Firmware.Keys.{CommandOutput, SecureBootConfig, setup_secure_boot}
use bcvk.Firmware.Enrolled.{Enrolled, setup_secure_boot-Enrolled}

abbrev descriptor : List String → FirmwareDescriptor
descriptor features = record {
  description = "UEFI firmware";
  interface_types = "uefi" ∷ [];
  mapping = record {
    device = "flash";
    executable = some (record { filename = "/usr/share/ovmf/code.fd"; format = "raw" });
    nvram_template = some (record { filename = "/usr/share/ovmf/vars.fd"; format = "qcow2" });
    filename = none;
  };
  targets = record { architecture = "x86_64"; machines = "pc-q35-*" ∷ [] } ∷ [];
  features = features;
  tags = [];
}

abbrev walked_file : String → Result WalkComponent
walked_file name = ok (record { path = name; file_name = name; is_file = true; is_utf8 = true })

-- one directory, whose first descriptor has enrolled keys
abbrev pub files : Files
files = record {
  var_os = λ name. EnvVar.unset;
  open_root = ok tt;
  open_dir_optional = λ path. ok (path == "usr/share/qemu/firmware");
  walk =
      λ path. walked_file "10-keys.json" ∷ walked_file "30-plain.json" ∷ walked_file "README" ∷ [];
  read_to_string = λ path. ok path;
  from_str = λ content. ok (
      descriptor (
        if contains "10-" content
        then "secure-boot" ∷ "enrolled-keys" ∷ []
        else "secure-boot" ∷ []));
  exists = λ path. true;
}

abbrev firmware : FirmwareInfo
firmware = record {
  code_path = "/usr/share/ovmf/code.fd";
  code_format = "raw";
  vars_path = "/usr/share/ovmf/vars.fd";
  vars_format = "qcow2";
}

find_firmware_from_descriptors-Chosen_example :
    (paths : List String) × (list_firmware_descriptors files ≡ ok paths)
    × Chosen files true (get_qemu_architecture "x86_64") paths firmware
unfolding find_firmware_from_descriptors contains rsplit_once strip_prefix join_path ends_with
    has_enrolled_keys supports_architecture supports_secure_boot
find_firmware_from_descriptors-Chosen_example =
    find_firmware_from_descriptors-Chosen files "x86_64" true firmware refl

abbrev run : List String → ℕ → Result CommandOutput × ℕ
run args w = (ok (record { success = true; stdout = some "0f1e\n"; stderr = "" }), w)

abbrev begin : Machine ℕ
begin = record { world = zero; log = [] }

abbrev config : SecureBootConfig
config = record {
  key_dir = "/keys";
  vars_path = "/pool/vm_OVMF_VARS.fd";
  vars_format = "qcow2";
  guid = "0f1e";
}

abbrev set_up : Machine ℕ
unfolding setup_secure_boot
set_up = (setup_secure_boot run (λ _. files) "x86_64" "/keys" "/pool/vm_OVMF_VARS.fd" begin).1

setup_secure_boot-Enrolled_example :
    Enrolled run (λ _. files) "x86_64" "/keys" "/pool/vm_OVMF_VARS.fd" begin config set_up
unfolding setup_secure_boot contains rsplit_once strip_prefix join_path trim ends_with ◌>>=◌
    has_enrolled_keys supports_architecture supports_secure_boot
setup_secure_boot-Enrolled_example =
    setup_secure_boot-Enrolled run (λ _. files) "x86_64" "/keys" "/pool/vm_OVMF_VARS.fd" begin
      set_up config refl
