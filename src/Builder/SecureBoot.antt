-- ===== src/Builder/SecureBoot.antt =====
-- What the builder of crates/kit/src/libvirt/domain.rs asks libvirt for when the firmware is secure.
mod Loader
use bcvk.Common.{
  ℕ, String, Bool, true, false, Option, none, some, List, [], ◌++◌, ◌≡◌, ◌&&◌, eq_refl, eq_iff,
  if◌then◌else◌,
}
use bcvk.Result
use bcvk.Result.{Result, err, ◌>>=◌}
use bcvk.Builder.SecureBoot.Loader.{carries, opens}
use bcvk.Arch.{ArchConfig}
use bcvk.Xml.{
  Attributes, escape_attributes, Event, start, empty, start_element, write_text_element_with_attrs,
  write_text,
}
use bcvk.Builder.{DomainBuilder, FirmwareType, bios, uefi_secure, uefi_insecure}
use bcvk.Builder.Devices.{within}
use bcvk.Builder.Document.{
  uefi_loader, custom_loader, nvram_events, selected_loader, insecure_boot, domain_parts,
  domain_attrs,
}

-- The firmware is secure: it is UEFI, and it was chosen as secure or comes with its own code.
abbrev pub is_secure : Option FirmwareType → Option String → Bool
is_secure (some bios) code = false
is_secure (some uefi_secure) code = true
is_secure (some uefi_insecure) (some code) = true
is_secure (some uefi_insecure) none = false
is_secure none (some code) = true
is_secure none none = false

-- The document has an `os` element with this loader after its type, and these features.
pub record Asked (escape : String → String) (secure x86 : Bool) (events : List Event) : Type 0 where
  pub loader : List Event
  pub before : List Event
  pub attrs : Attributes
  pub type : List Event
  pub after : List Event
  pub has_loader :
      events ≡ before ++ (start_element escape "os" attrs ++ (type ++ (loader ++ after)))
  pub asks : carries "secure" (escape "yes") loader ≡ secure
  pub features : List Event
  pub earlier : List Event
  pub later : List Event
  pub has_features : events ≡ earlier ++ (features ++ later)
  pub manages : opens "smm" features ≡ (x86 && secure)

module _ (escape : String → String) (vcpus : ℕ) (uuid : String) (c : ArchConfig) (b : DomainBuilder)
    (n : String) (loader : List Event) where
  abbrev document : List Event
  document = within escape "domain" (domain_attrs b) (domain_parts escape vcpus uuid c b n loader)
