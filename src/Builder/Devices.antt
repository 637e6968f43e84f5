-- ===== src/Builder/Devices.antt =====
-- The devices of `DomainBuilder::build_xml` (crates/kit/src/libvirt/domain.rs): each is the events
-- that the XML writer is called for.
use bcvk.Common.{
  String, Bool, Option, none, some, List, [], ◌∷◌, ◌++◌, concat, ◌==◌, if◌then◌else◌, unwrap_or,
  ends_with, strip_prefix,
}
use bcvk.Xml.{
  Event, Attributes, start_element, end_element, write_empty_element, write_text_element,
}
use bcvk.Arch.{ArchConfig}
use bcvk.Builder.{DomainBuilder, VirtiofsFilesystem, FirmwareLogOutput}

abbrev pub if_set : Bool → List Event → List Event
if_set b es = if b then es else []

abbrev pub if_some : {A : Type 0} → Option A → (A → List Event) → List Event
if_some none f = []
if_some (some a) f = f a

unfoldable pub each : {A : Type 0} → (A → List Event) → List A → List Event
each f [] = []
each f (a ∷ rest) = f a ++ each f rest

module _ (escape : String → String) where
  -- `start_element`, what is written inside, and `end_element`
  unfoldable pub within : String → Attributes → List (List Event) → List Event
  within name attributes inside =
      start_element escape name attributes ++ (concat inside ++ end_element escape name)

  abbrev empty : String → Attributes → List Event
  empty = write_empty_element escape

  unfoldable pub disk_events : Bool → String → List Event
  disk_events transient disk_path =
      let disk_type = if ends_with ".qcow2" disk_path then "qcow2" else "raw" in
      within "disk" (("type", "file") ∷ ("device", "disk") ∷ []) (
        empty "driver" (("name", "qemu") ∷ ("type", disk_type) ∷ [])
        ∷ empty "source" (("file", disk_path) ∷ [])
        ∷ empty "target" (("dev", "vda") ∷ ("bus", "virtio") ∷ [])
        ∷ if_set transient (empty "transient" (("shareBacking", "yes") ∷ []))
        ∷ [])

  unfoldable pub ignition_events : String → List Event
  ignition_events ignition_disk = within "disk" (("type", "file") ∷ ("device", "disk") ∷ []) (
      empty "driver" (("name", "qemu") ∷ ("type", "raw") ∷ [])
      ∷ empty "source" (("file", ignition_disk) ∷ [])
      ∷ empty "target" (("dev", "vdb") ∷ ("bus", "virtio") ∷ [])
      ∷ write_text_element escape "serial" "ignition"
      ∷ empty "readonly" []
      ∷ [])

  abbrev virtio : List Event
  virtio = empty "model" (("type", "virtio") ∷ [])

  -- the last two cases: the rest of a `bridge=` or a network's name
  unfoldable pub named_network_events : String → Option String → List Event
  named_network_events network (some bridge_name) =
      within "interface" (("type", "bridge") ∷ [])
        (empty "source" (("bridge", bridge_name) ∷ []) ∷ virtio ∷ [])
  named_network_events network none =
      within "interface" (("type", "network") ∷ [])
        (empty "source" (("network", network) ∷ []) ∷ virtio ∷ [])

  unfoldable pub network_events : String → List Event
  unfolding named_network_events
  network_events network =
      if network == "none"
      then []
      else if network == "default"
      then []
      else if network == "user"
      then within "interface" (("type", "user") ∷ []) (virtio ∷ [])
      else named_network_events network (strip_prefix "bridge=" network)

  -- a console and its log file
  unfoldable pub console_events : String → Option String → List Event
  console_events target log_path = within "console" (("type", "pty") ∷ []) (
      if_some log_path (λ path. empty "log" (("file", path) ∷ ("append", "on") ∷ []))
      ∷ empty "target" (("type", target) ∷ [])
      ∷ [])

  -- a channel of the journal to a file
  unfoldable pub journal_events : String → String → List Event
  journal_events channel_name path = within "channel" (("type", "file") ∷ []) (
      empty "source" (("path", path) ∷ ("append", "on") ∷ [])
      ∷ within "target" (("type", "virtio") ∷ ("name", channel_name) ∷ []) []
      ∷ [])

  abbrev log_source : FirmwareLogOutput → String × Option String
  log_source FirmwareLogOutput.console = ("pty", none)
  log_source (FirmwareLogOutput.file path) = ("file", some path)

  unfoldable pub firmware_log_events : FirmwareLogOutput → List Event
  firmware_log_events firmware_log =
      let (serial_type, source_path) = log_source firmware_log in
      within "serial" (("type", serial_type) ∷ []) (
        if_some source_path (λ path. empty "source" (("path", path) ∷ []))
        ∷ within "target" (("type", "isa-debug") ∷ ("port", "0") ∷ [])
            (empty "model" (("name", "isa-debugcon") ∷ []) ∷ [])
        ∷ empty "address" (("type", "isa") ∷ ("iobase", "0x402") ∷ [])
        ∷ [])

  unfoldable pub graphics_events : List Event
  graphics_events = concat (
      within "graphics" (("type", "spice") ∷ ("autoport", "yes") ∷ [])
        (empty "listen" (("type", "address") ∷ []) ∷ [])
      ∷ within "video" []
          (empty "model" (("type", "virtio") ∷ ("heads", "1") ∷ ("primary", "yes") ∷ []) ∷ [])
      ∷ within "channel" (("type", "spicevmc") ∷ [])
          (empty "target" (("type", "virtio") ∷ ("name", "com.redhat.spice.0") ∷ []) ∷ [])
      ∷ [])

  unfoldable pub filesystem_events : VirtiofsFilesystem → List Event
  filesystem_events filesystem =
      within "filesystem" (("type", "mount") ∷ ("accessmode", "passthrough") ∷ []) (
        empty "driver" (("type", "virtiofs") ∷ ("queue", "1024") ∷ [])
        ∷ if_set filesystem.readonly (empty "readonly" [])
        ∷ empty "source" (("dir", filesystem.source_dir) ∷ [])
        ∷ empty "target" (("dir", filesystem.tag) ∷ [])
        ∷ [])

  unfoldable pub tpm_events : List Event
  tpm_events =
      within "tpm" (("model", "tpm-tis") ∷ [])
        (empty "backend" (("type", "emulator") ∷ ("version", "2.0") ∷ []) ∷ [])

  unfoldable pub device_events : ArchConfig → DomainBuilder → List Event
  device_events arch_config b = within "devices" [] (
      if_some b.disk_path (disk_events b.transient_disk)
      ∷ if_some b.ignition_disk_path ignition_events
      ∷ network_events (unwrap_or b.network "default")
      ∷ console_events "serial" b.serial_console_log
      ∷ console_events "virtio" b.virtio_console_log
      ∷ if_some b.journal_channel_file (journal_events "org.bcvk.journal")
      ∷ if_some b.journal_initrd_channel_file (journal_events "org.bcvk.journal.initrd")
      ∷ if_set (arch_config.arch == "x86_64") (if_some b.firmware_log firmware_log_events)
      ∷ if_set b.graphical_console graphics_events
      ∷ each filesystem_events b.virtiofs_filesystems
      ∷ if_set b.tpm tpm_events
      ∷ [])
