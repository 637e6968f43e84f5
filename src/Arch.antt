-- ===== src/Arch.antt =====
-- crates/kit/src/arch.rs: what the domain's XML takes from the host's architecture, which is
-- `std::env::consts::ARCH`.
use bcvk.Common.{String, List, [], ◌∷◌, ◌++◌, ◌==◌, ◌||◌, format, if◌then◌else◌}
use bcvk.Result.{Result, ok, err}
use bcvk.Xml.{Event, write_empty_element}

pub record ArchConfig : Type 0 where
  pub arch : String
  pub machine : String
  pub os_type : String

-- `ArchConfig::detect`
unfoldable pub detect : String → Result ArchConfig
detect host =
    if host == "x86_64"
    then ok (record { arch = "x86_64"; machine = "q35"; os_type = "hvm" })
    else if host == "aarch64"
    then ok (record { arch = "aarch64"; machine = "virt"; os_type = "hvm" })
    else err (
        format
          ("Unsupported architecture: " ∷ host ∷ ". Supported architectures: x86_64, aarch64" ∷ []))

-- `ArchConfig::cpu_mode`
unfoldable pub cpu_mode : ArchConfig → String
cpu_mode config =
    if config.arch == "x86_64" || config.arch == "aarch64" then "host-passthrough" else "host-model"

-- `ArchConfig::write_timers`
unfoldable pub write_timers : (String → String) → ArchConfig → List Event
write_timers escape config =
    write_empty_element escape "timer" (("name", "rtc") ∷ ("tickpolicy", "catchup") ∷ [])
    ++ (if config.arch == "x86_64"
        then write_empty_element escape "timer" (("name", "pit") ∷ ("tickpolicy", "delay") ∷ [])
          ++ write_empty_element escape "timer" (("name", "hpet") ∷ ("present", "no") ∷ [])
        else [])
