-- ===== src/Builder/Document.antt =====
-- `DomainBuilder::build_xml` (crates/kit/src/libvirt/domain.rs). The architecture of the host, the
-- number of its processors and a fresh UUID are parameters. A failed `expect` is an error here.
use bcvk.Common.{
  ℕ, String, Bool, true, false, not, ◌&&◌, ◌||◌, Option, none, some, List, [], ◌∷◌, ◌++◌, concat,
  ◌==◌, format, if◌then◌else◌, unwrap_or, is_some, is_empty, starts_with, to_string,
}
use bcvk.Result.{Result, ok, err, ok_or, ◌>>=◌}
use bcvk.Xml.{
  Event, Attributes, write_empty_element, write_text_element, write_text_element_with_attrs,
}
use bcvk.Arch.{ArchConfig, detect, cpu_mode, write_timers}
use bcvk.Builder.{DomainBuilder, uefi_secure, uefi_insecure, bios}
use bcvk.Builder.Devices.{within, if_some, if_set, each, device_events}

unfoldable pub use_uefi : DomainBuilder → Bool
use_uefi b = elim b.firmware [ some bios ↦ false | _ ↦ true ]

unfoldable pub secure_boot : DomainBuilder → Bool
unfolding use_uefi
secure_boot b =
    use_uefi b
    && (elim b.firmware [ some uefi_secure ↦ true | _ ↦ false ] || is_some b.ovmf_code_path)

unfoldable pub insecure_boot : DomainBuilder → Bool
insecure_boot b = elim b.firmware [ some uefi_insecure ↦ true | _ ↦ false ]

-- `parse_memory_to_mb` of the default, "4G"
abbrev default_memory : ℕ
default_memory = 4096

unfoldable pub element_name : String → String
element_name key = if starts_with "bootc:" key then key else format ("bootc:" ∷ key ∷ [])

abbrev pub domain_attrs : DomainBuilder → Attributes
domain_attrs b =
    if is_empty b.qemu_args && is_empty b.fw_cfg_entries
    then ("type", "kvm") ∷ []
    else ("type", "kvm") ∷ ("xmlns:qemu", "http://libvirt.org/schemas/domain/qemu/1.0") ∷ []

module _ (escape : String → String) where
  -- the path and the format of the file
  unfoldable pub nvram_events : Option String → Option String → Result (List Event)
  nvram_events none nvram_format = ok []
  nvram_events (some nvram_path) none = err "nvram_format must be set when nvram_path is set"
  nvram_events (some nvram_path) (some nvram_fmt) =
      ok (write_text_element_with_attrs escape "nvram" nvram_path (("format", nvram_fmt) ∷ []))

  unfoldable pub custom_loader : Bool → String → Option String → Result (List Event)
  custom_loader secure ovmf_code none =
      err "ovmf_code_format must be set when ovmf_code_path is set"
  custom_loader secure ovmf_code (some code_format) =
      let loader_attrs : Attributes =
        ("readonly", "yes")
        ∷ ("type", "pflash")
        ∷ ("format", code_format)
        ∷ (if secure then ("secure", "yes") ∷ [] else []) in
      ok (write_text_element_with_attrs escape "loader" ovmf_code loader_attrs)

  unfoldable pub selected_loader : Bool → Bool → List Event
  selected_loader secure insecure =
      if secure
      then write_empty_element escape "loader" (("secure", "yes") ∷ [])
      else if insecure
      then write_empty_element escape "loader" (("secure", "no") ∷ [])
      else []

  unfoldable pub uefi_loader : Option String → DomainBuilder → Result (List Event)
  unfolding custom_loader nvram_events selected_loader secure_boot insecure_boot
  uefi_loader none b = ok (selected_loader (secure_boot b) (insecure_boot b))
  uefi_loader (some ovmf_code) b = do
    loader ← custom_loader (secure_boot b) ovmf_code b.ovmf_code_format
    nvram ← nvram_events b.nvram_path b.nvram_format
    ok (loader ++ nvram)

  unfoldable pub loader_events : DomainBuilder → Result (List Event)
  unfolding use_uefi uefi_loader
  loader_events b = if use_uefi b then uefi_loader b.ovmf_code_path b else ok []

  unfoldable pub os_events : ArchConfig → DomainBuilder → List Event → List Event
  os_events arch_config b loader =
      let machine_type =
        if secure_boot b && arch_config.arch == "x86_64" then "q35" else arch_config.machine in
      within escape "os"
        (if use_uefi b && not (is_some b.ovmf_code_path) then ("firmware", "efi") ∷ [] else [])
        (write_text_element_with_attrs escape "type" arch_config.os_type
            (("arch", arch_config.arch) ∷ ("machine", machine_type) ∷ [])
          ∷ loader
          ∷ write_empty_element escape "boot" (("dev", "hd") ∷ [])
          ∷ if_some b.kernel_args (write_text_element escape "cmdline")
          ∷ [])

  unfoldable pub feature_events : ArchConfig → DomainBuilder → List Event
  feature_events arch_config b = within escape "features" [] (
      write_empty_element escape "acpi" []
      ∷ write_empty_element escape "apic" []
      ∷ if_set (arch_config.arch == "x86_64") (
          concat (
            write_empty_element escape "vmport" (("state", "off") ∷ [])
            ∷ if_set (secure_boot b) (write_empty_element escape "smm" (("state", "on") ∷ []))
            ∷ []))
      ∷ [])

  qemu_arg : String → List Event
  qemu_arg value = write_empty_element escape "qemu:arg" (("value", value) ∷ [])

  fw_cfg_events : String × String → List Event
  fw_cfg_events entry =
      concat
        (qemu_arg "-fw_cfg" ∷ qemu_arg (format ("name=" ∷ entry.0 ∷ ",file=" ∷ entry.1 ∷ [])) ∷ [])

  unfoldable pub commandline_events : DomainBuilder → List Event
  unfolding qemu_arg fw_cfg_events
  commandline_events b = if_set (not (is_empty b.qemu_args) || not (is_empty b.fw_cfg_entries)) (
      within escape "qemu:commandline" []
        (each fw_cfg_events b.fw_cfg_entries ∷ each qemu_arg b.qemu_args ∷ []))

  unfoldable pub metadata_events : DomainBuilder → List Event
  metadata_events b = if_set (not (is_empty b.metadata)) (
      within escape "metadata" [] (
        within escape "bootc:container"
          (("xmlns:bootc", "https://github.com/containers/bootc") ∷ [])
          (each (λ m. write_text_element escape (element_name m.0) m.1) b.metadata ∷ [])
        ∷ []))

  abbrev power : List Event
  power = concat (
      write_text_element escape "on_poweroff" "destroy"
      ∷ write_text_element escape "on_reboot" "restart"
      ∷ write_text_element escape "on_crash" "destroy"
      ∷ [])

  module _ (default_vcpus : ℕ) (new_uuid : String) where
    -- what is inside the root element
    unfoldable pub domain_parts :
        ArchConfig → DomainBuilder → String → List Event → List (List Event)
    domain_parts arch_config b name loader =
        let memory = to_string (unwrap_or b.memory default_memory) in
        write_text_element escape "name" name
        ∷ write_text_element escape "uuid" (unwrap_or b.uuid new_uuid)
        ∷ write_text_element_with_attrs escape "memory" memory (("unit", "MiB") ∷ [])
        ∷ write_text_element_with_attrs escape "currentMemory" memory (("unit", "MiB") ∷ [])
        ∷ write_text_element escape "vcpu" (to_string (unwrap_or b.vcpus default_vcpus))
        ∷ os_events arch_config b loader
        ∷ within escape "memoryBacking" [] (
            write_empty_element escape "source" (("type", "memfd") ∷ [])
            ∷ write_empty_element escape "access" (("mode", "shared") ∷ [])
            ∷ [])
        ∷ feature_events arch_config b
        ∷ write_empty_element escape "cpu" (("mode", cpu_mode arch_config) ∷ [])
        ∷ within escape "clock" (("offset", "utc") ∷ []) (write_timers escape arch_config ∷ [])
        ∷ power
        ∷ device_events escape arch_config b
        ∷ commandline_events b
        ∷ metadata_events b
        ∷ []

    -- The first argument is `std::env::consts::ARCH`.
    unfoldable pub build_xml : String → DomainBuilder → Result (List Event)
    unfolding detect loader_events domain_parts
    build_xml host_arch b = do
      name ← ok_or b.name "Domain name is required"
      arch_config ← detect host_arch
      loader ← loader_events b
      ok (within escape "domain" (domain_attrs b) (domain_parts arch_config b name loader))
