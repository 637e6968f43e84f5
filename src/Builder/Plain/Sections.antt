-- ===== src/Builder/Plain/Sections.antt =====
-- Each part of the domain's XML before its metadata (crates/kit/src/libvirt/domain.rs) is plain.
use bcvk.Common.{
  String, List, [], ◌++◌, Option, none, some, Bool, true, false, if◌then◌else◌, ◌≡◌, strip_prefix,
}
use bcvk.Xml.{Event}
use bcvk.Arch.{ArchConfig, write_timers}
use bcvk.Builder.{DomainBuilder, VirtiofsFilesystem, FirmwareLogOutput}
use bcvk.Builder.Plain.{Plain, plain_rules}
use bcvk.Builder.Devices.{
  disk_events, ignition_events, named_network_events, network_events, console_events,
  journal_events, firmware_log_events, graphics_events, filesystem_events, tpm_events,
  device_events,
}
use bcvk.Builder.Document.{
  nvram_events, custom_loader, uefi_loader, selected_loader, use_uefi, secure_boot, loader_events,
  os_events, feature_events, commandline_events,
}
use bcvk.Result.{Result, ok, err, ◌>>=◌}

module _ (unescape : String → Option String) (escape : String → String)
    (read_back : (t : String) → unescape (escape t) ≡ some t) (key : String) where
  abbrev IsPlain : List Event → Type 0
  IsPlain es = Plain unescape escape read_back key es

  Plain-disk : (t : Bool) (d : String) → IsPlain (disk_events escape t d)
  unfolding disk_events strip_prefix
  Plain-disk t d = search plain_rules depth 40

  Plain-ignition : (d : String) → IsPlain (ignition_events escape d)
  unfolding ignition_events strip_prefix
  Plain-ignition d = search plain_rules depth 40

  Plain-named_network : (n : String) (o : Option String) → IsPlain (named_network_events escape n o)
  unfolding named_network_events strip_prefix
  Plain-named_network n (some bridge) = search plain_rules depth 40
  Plain-named_network n none = search plain_rules depth 40

  Plain-user : IsPlain (network_events escape "user")
  unfolding network_events strip_prefix
  Plain-user = search plain_rules depth 40

  Plain-network : (n : String) → IsPlain (network_events escape n)
  unfolding network_events strip_prefix
  Plain-network n = search (plain_rules, Plain-named_network, Plain-user) depth 40

  Plain-console : (t : String) (l : Option String) → IsPlain (console_events escape t l)
  unfolding console_events strip_prefix
  Plain-console t l = search plain_rules depth 40

  Plain-journal : (c p : String) → IsPlain (journal_events escape c p)
  unfolding journal_events strip_prefix
  Plain-journal c p = search plain_rules depth 40

  Plain-firmware_log : (l : FirmwareLogOutput) → IsPlain (firmware_log_events escape l)
  unfolding firmware_log_events strip_prefix
  Plain-firmware_log (FirmwareLogOutput.file path) = search plain_rules depth 40
  Plain-firmware_log FirmwareLogOutput.console = search plain_rules depth 40

  Plain-graphics : IsPlain (graphics_events escape)
  unfolding graphics_events strip_prefix
  Plain-graphics = search plain_rules depth 60

  Plain-filesystem : (f : VirtiofsFilesystem) → IsPlain (filesystem_events escape f)
  unfolding filesystem_events strip_prefix
  Plain-filesystem f = search plain_rules depth 40

  Plain-tpm : IsPlain (tpm_events escape)
  unfolding tpm_events strip_prefix
  Plain-tpm = search plain_rules depth 40

  pub Plain-timers : (c : ArchConfig) → IsPlain (write_timers escape c)
  unfolding write_timers strip_prefix
  Plain-timers c = search plain_rules depth 40

  pub Plain-devices : (c : ArchConfig) (b : DomainBuilder) → IsPlain (device_events escape c b)
  unfolding device_events strip_prefix
  Plain-devices c b =
      search
        (
          plain_rules, Plain-disk, Plain-ignition, Plain-network, Plain-console, Plain-journal,
          Plain-firmware_log, Plain-graphics, Plain-filesystem, Plain-tpm,
        )
        depth 60

  -- A part that cannot be written is nothing.
  abbrev pub IsPlainIfOk : Result (List Event) → Type 0
  IsPlainIfOk (ok es) = IsPlain es
  IsPlainIfOk (err e) = Unit

  Plain-nvram : (p f : Option String) → IsPlainIfOk (nvram_events escape p f)
  unfolding nvram_events strip_prefix
  Plain-nvram none f = search plain_rules
  Plain-nvram (some p) none = tt
  Plain-nvram (some p) (some f) = search plain_rules

  Plain-custom :
      (s : Bool) (c : String) (f : Option String) → IsPlainIfOk (custom_loader escape s c f)
  unfolding custom_loader strip_prefix
  Plain-custom s c none = tt
  Plain-custom s c (some f) = search plain_rules

  Plain-both :
      (r q : Result (List Event))
      → IsPlainIfOk r
      → IsPlainIfOk q
      → IsPlainIfOk (r >>= λ xs. q >>= λ ys. ok (xs ++ ys))
  Plain-both (err e) q p p' = tt
  Plain-both (ok xs) (err e) p p' = tt
  Plain-both (ok xs) (ok ys) p p' = search (plain_rules, p, p')

  Plain-uefi : (o : Option String) (b : DomainBuilder) → IsPlainIfOk (uefi_loader escape o b)
  unfolding uefi_loader selected_loader strip_prefix
  Plain-uefi none b = search plain_rules
  Plain-uefi (some c) b =
      Plain-both _ _ (Plain-custom (secure_boot b) c b.ovmf_code_format)
        (Plain-nvram b.nvram_path b.nvram_format)

  Plain-either :
      (t : Bool) (r : Result (List Event)) → IsPlainIfOk r → IsPlainIfOk (if t then r else ok [])
  Plain-either true r p = p
  Plain-either false r p = search plain_rules

  pub Plain-loader : (b : DomainBuilder) → IsPlainIfOk (loader_events escape b)
  unfolding loader_events
  Plain-loader b = Plain-either (use_uefi b) _ (Plain-uefi b.ovmf_code_path b)

  pub Plain-os :
      (c : ArchConfig) (b : DomainBuilder) (loader : List Event)
      → IsPlain loader
      → IsPlain (os_events escape c b loader)
  unfolding os_events strip_prefix
  Plain-os c b loader p = search plain_rules depth 60

  pub Plain-features : (c : ArchConfig) (b : DomainBuilder) → IsPlain (feature_events escape c b)
  unfolding feature_events strip_prefix
  Plain-features c b = search plain_rules depth 60

  pub Plain-commandline : (b : DomainBuilder) → IsPlain (commandline_events escape b)
  unfolding commandline_events strip_prefix
  Plain-commandline b = search plain_rules depth 60
