-- ===== src/Builder.antt =====
-- crates/kit/src/libvirt/domain.rs: the builder of a domain's configuration. Builder.Devices and
-- Builder.Document are the parts of `build_xml`; Builder.Elements says what the events of such a
-- part add to the tree that they are parsed to, and Builder.Metadata reads the metadata back.
pub mod Devices
pub mod Document
pub mod Elements
pub mod Plain
pub mod Metadata
pub mod Calls
pub mod SecureBoot
use bcvk.Common.{ℕ, String, Bool, true, false, Option, none, some, List, [], ◌∷◌, ◌++◌}
use bcvk.Xml.{Attributes, insert}

pub record VirtiofsFilesystem : Type 0 where
  pub source_dir : String
  pub tag : String
  pub readonly : Bool

pub data FirmwareLogOutput : Type 0 where
  file : String → FirmwareLogOutput
  console : FirmwareLogOutput

-- `FirmwareType` of crates/kit/src/libvirt/run.rs
pub data FirmwareType : Type 0 where
  uefi_secure uefi_insecure bios : FirmwareType

-- The metadata is a hash map: its keys are listed once, in some order.
pub record DomainBuilder : Type 0 where
  pub name : Option String
  pub uuid : Option String
  pub memory : Option ℕ
  pub vcpus : Option ℕ
  pub disk_path : Option String
  pub transient_disk : Bool
  pub network : Option String
  pub graphical_console : Bool
  pub kernel_args : Option String
  pub metadata : Attributes
  pub qemu_args : List String
  pub virtiofs_filesystems : List VirtiofsFilesystem
  pub firmware : Option FirmwareType
  pub tpm : Bool
  pub ovmf_code_path : Option String
  pub ovmf_code_format : Option String
  pub nvram_path : Option String
  pub nvram_format : Option String
  pub firmware_log : Option FirmwareLogOutput
  pub virtio_console_log : Option String
  pub serial_console_log : Option String
  pub fw_cfg_entries : List (String × String)
  pub ignition_disk_path : Option String
  pub journal_channel_file : Option String
  pub journal_initrd_channel_file : Option String

-- `DomainBuilder::new`
abbrev pub new_builder : DomainBuilder
new_builder = record {
  name = none;
  uuid = none;
  memory = none;
  vcpus = none;
  disk_path = none;
  transient_disk = false;
  network = none;
  graphical_console = false;
  kernel_args = none;
  metadata = [];
  qemu_args = [];
  virtiofs_filesystems = [];
  firmware = none;
  tpm = true;
  ovmf_code_path = none;
  ovmf_code_format = none;
  nvram_path = none;
  nvram_format = none;
  firmware_log = none;
  virtio_console_log = none;
  serial_console_log = none;
  fw_cfg_entries = [];
  ignition_disk_path = none;
  journal_channel_file = none;
  journal_initrd_channel_file = none;
}

abbrev pub with_name : String → DomainBuilder → DomainBuilder
with_name name b = record b { name = some name }

abbrev pub with_memory : ℕ → DomainBuilder → DomainBuilder
with_memory memory_mb b = record b { memory = some memory_mb }

abbrev pub with_vcpus : ℕ → DomainBuilder → DomainBuilder
with_vcpus vcpus b = record b { vcpus = some vcpus }

abbrev pub with_disk : String → DomainBuilder → DomainBuilder
with_disk disk_path b = record b { disk_path = some disk_path }

abbrev pub with_transient_disk : Bool → DomainBuilder → DomainBuilder
with_transient_disk transient b = record b { transient_disk = transient }

abbrev pub with_network : String → DomainBuilder → DomainBuilder
with_network network b = record b { network = some network }

abbrev pub with_graphical_console : DomainBuilder → DomainBuilder
with_graphical_console b = record b { graphical_console = true }

abbrev pub with_kernel_args : String → DomainBuilder → DomainBuilder
with_kernel_args kernel_args b = record b { kernel_args = some kernel_args }

unfoldable pub with_metadata : String → String → DomainBuilder → DomainBuilder
unfolding insert
with_metadata key value b = record b { metadata = insert key value b.metadata }

abbrev pub with_qemu_args : List String → DomainBuilder → DomainBuilder
with_qemu_args args b = record b { qemu_args = args }

abbrev pub with_virtiofs_filesystem : VirtiofsFilesystem → DomainBuilder → DomainBuilder
with_virtiofs_filesystem filesystem b = record b {
  virtiofs_filesystems = b.virtiofs_filesystems ++ (filesystem ∷ []);
}

abbrev pub with_firmware : FirmwareType → DomainBuilder → DomainBuilder
with_firmware firmware b = record b { firmware = some firmware }

abbrev pub with_tpm : Bool → DomainBuilder → DomainBuilder
with_tpm tpm b = record b { tpm = tpm }

abbrev pub with_ovmf_code_path : String → String → DomainBuilder → DomainBuilder
with_ovmf_code_path path format b = record b {
  ovmf_code_path = some path;
  ovmf_code_format = some format;
}

abbrev pub with_nvram : String → String → DomainBuilder → DomainBuilder
with_nvram path format b = record b { nvram_path = some path; nvram_format = some format }

abbrev pub with_firmware_log : FirmwareLogOutput → DomainBuilder → DomainBuilder
with_firmware_log output b = record b { firmware_log = some output }

abbrev pub with_virtio_console_log : String → DomainBuilder → DomainBuilder
with_virtio_console_log path b = record b { virtio_console_log = some path }

abbrev pub with_serial_console_log : String → DomainBuilder → DomainBuilder
with_serial_console_log path b = record b { serial_console_log = some path }

abbrev pub add_fw_cfg : String → String → DomainBuilder → DomainBuilder
add_fw_cfg name file_path b = record b {
  fw_cfg_entries = b.fw_cfg_entries ++ ((name, file_path) ∷ []);
}

abbrev pub with_ignition_disk : String → DomainBuilder → DomainBuilder
with_ignition_disk disk_path b = record b { ignition_disk_path = some disk_path }

abbrev pub with_journal_channel_file : String → DomainBuilder → DomainBuilder
with_journal_channel_file path b = record b { journal_channel_file = some path }

abbrev pub with_journal_initrd_channel_file : String → DomainBuilder → DomainBuilder
with_journal_initrd_channel_file path b = record b { journal_initrd_channel_file = some path }
