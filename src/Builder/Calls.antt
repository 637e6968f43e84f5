-- ===== src/Builder/Calls.antt =====
-- Builders that come about by the methods of crates/kit/src/libvirt/domain.rs, and when `build_xml`
-- gives a document.
use bcvk.Common.{ℕ, String, Bool, true, Option, none, some, List, ◌≡◌, refl, arith, is_some, ◌&&◌}
use bcvk.Result.{is_ok}
use bcvk.Arch.{detect}
use bcvk.Builder.{
  DomainBuilder, FirmwareType, FirmwareLogOutput, VirtiofsFilesystem, new_builder, with_name,
  with_memory, with_vcpus, with_disk, with_transient_disk, with_network, with_graphical_console,
  with_kernel_args, with_metadata, with_qemu_args, with_virtiofs_filesystem, with_firmware,
  with_tpm, with_ovmf_code_path, with_nvram, with_firmware_log, with_virtio_console_log,
  with_serial_console_log, add_fw_cfg, with_ignition_disk, with_journal_channel_file,
  with_journal_initrd_channel_file,
}
use bcvk.Builder.Document.{
  build_xml, loader_events, uefi_loader, custom_loader, nvram_events, use_uefi,
}

-- `b` is what some calls have made of a new builder.
pub data Built : DomainBuilder → Type 0 where
  new : Built new_builder
  name : (n : String) {b : DomainBuilder} → Built b → Built (with_name n b)
  memory : (m : ℕ) {b : DomainBuilder} → Built b → Built (with_memory m b)
  vcpus : (n : ℕ) {b : DomainBuilder} → Built b → Built (with_vcpus n b)
  disk : (path : String) {b : DomainBuilder} → Built b → Built (with_disk path b)
  transient_disk : (t : Bool) {b : DomainBuilder} → Built b → Built (with_transient_disk t b)
  network : (n : String) {b : DomainBuilder} → Built b → Built (with_network n b)
  graphical_console : {b : DomainBuilder} → Built b → Built (with_graphical_console b)
  kernel_args : (args : String) {b : DomainBuilder} → Built b → Built (with_kernel_args args b)
  metadata : (k v : String) {b : DomainBuilder} → Built b → Built (with_metadata k v b)
  qemu_args : (args : List String) {b : DomainBuilder} → Built b → Built (with_qemu_args args b)
  virtiofs_filesystem :
      (f : VirtiofsFilesystem) {b : DomainBuilder} → Built b → Built (with_virtiofs_filesystem f b)
  firmware : (f : FirmwareType) {b : DomainBuilder} → Built b → Built (with_firmware f b)
  tpm : (t : Bool) {b : DomainBuilder} → Built b → Built (with_tpm t b)
  ovmf_code_path :
      (path format : String) {b : DomainBuilder}
      → Built b
      → Built (with_ovmf_code_path path format b)
  nvram : (path format : String) {b : DomainBuilder} → Built b → Built (with_nvram path format b)
  firmware_log :
      (o : FirmwareLogOutput) {b : DomainBuilder} → Built b → Built (with_firmware_log o b)
  virtio_console_log :
      (path : String) {b : DomainBuilder} → Built b → Built (with_virtio_console_log path b)
  serial_console_log :
      (path : String) {b : DomainBuilder} → Built b → Built (with_serial_console_log path b)
  fw_cfg : (n path : String) {b : DomainBuilder} → Built b → Built (add_fw_cfg n path b)
  ignition_disk : (path : String) {b : DomainBuilder} → Built b → Built (with_ignition_disk path b)
  journal_channel_file :
      (path : String) {b : DomainBuilder} → Built b → Built (with_journal_channel_file path b)
  journal_initrd_channel_file :
      (path : String) {b : DomainBuilder}
      → Built b
      → Built (with_journal_initrd_channel_file path b)

-- A file of the firmware has a format.
abbrev Formatted : DomainBuilder → Type 0
Formatted b =
    (is_some b.ovmf_code_path ≡ is_some b.ovmf_code_format)
    × (is_some b.nvram_path ≡ is_some b.nvram_format)

Built-Formatted : {b : DomainBuilder} → Built b → Formatted b
unfolding with_metadata
Built-Formatted new = (refl, refl)
Built-Formatted (name n w) = Built-Formatted w
Built-Formatted (memory m w) = Built-Formatted w
Built-Formatted (vcpus n w) = Built-Formatted w
Built-Formatted (disk p w) = Built-Formatted w
Built-Formatted (transient_disk t w) = Built-Formatted w
Built-Formatted (network n w) = Built-Formatted w
Built-Formatted (graphical_console w) = Built-Formatted w
Built-Formatted (kernel_args a w) = Built-Formatted w
Built-Formatted (metadata k v w) = Built-Formatted w
Built-Formatted (qemu_args a w) = Built-Formatted w
Built-Formatted (virtiofs_filesystem f w) = Built-Formatted w
Built-Formatted (firmware f w) = Built-Formatted w
Built-Formatted (tpm t w) = Built-Formatted w
Built-Formatted (ovmf_code_path p f w) = (refl, (Built-Formatted w).1)
Built-Formatted (nvram p f w) = ((Built-Formatted w).0, refl)
Built-Formatted (firmware_log o w) = Built-Formatted w
Built-Formatted (virtio_console_log p w) = Built-Formatted w
Built-Formatted (serial_console_log p w) = Built-Formatted w
Built-Formatted (fw_cfg n p w) = Built-Formatted w
Built-Formatted (ignition_disk p w) = Built-Formatted w
Built-Formatted (journal_channel_file p w) = Built-Formatted w
Built-Formatted (journal_initrd_channel_file p w) = Built-Formatted w

nvram-written :
    (escape : String → String) (p f : Option String)
    → is_some p ≡ is_some f
    → is_ok (nvram_events escape p f) ≡ true
unfolding nvram_events
nvram-written escape none f h = refl
nvram-written escape (some p) none h = cc
nvram-written escape (some p) (some f) h = refl

loader-written :
    (escape : String → String) (b : DomainBuilder)
    → Formatted b
    → is_ok (loader_events escape b) ≡ true
unfolding loader_events uefi_loader custom_loader use_uefi
loader-written escape b w =
    let n = nvram-written escape b.nvram_path b.nvram_format w.1 in ground arith

-- A builder that has only been changed by its methods never makes `build_xml` panic for a missing
-- format: there is a document just when a name was given and the architecture is supported.
pub build_xml-succeeds :
    (escape : String → String) (cores : ℕ) (uuid host_arch : String) (b : DomainBuilder)
    → Built b
    → is_ok (build_xml escape cores uuid host_arch b) ≡ (is_some b.name && is_ok (detect host_arch))
unfolding build_xml
build_xml-succeeds escape cores uuid host_arch b w =
    let l = loader-written escape b (Built-Formatted w) in ground arith
