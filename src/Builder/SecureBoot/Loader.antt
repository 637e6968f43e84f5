-- ===== src/Builder/SecureBoot/Loader.antt =====
-- Whether the loader of crates/kit/src/libvirt/domain.rs is asked for secure boot.
use bcvk.Common.{
  String, Bool, true, false, Option, none, some, List, [], ◌∷◌, ◌++◌, ◌≡◌, ◌≢◌, refl, arith, ◌&&◌,
  ◌||◌, ◌==◌, eq_refl, sym, eq_iff, if◌then◌else◌,
}
use bcvk.Result.{Result, ok, err, ◌>>=◌}
use bcvk.Xml.{
  Attributes, escape_attributes, Event, start, empty, start_element, write_empty_element,
  write_text_element_with_attrs, write_text, end_element,
}
use bcvk.Builder.{DomainBuilder}
use bcvk.Builder.Document.{
  loader_events, uefi_loader, custom_loader, nvram_events, selected_loader, use_uefi, secure_boot,
  insecure_boot,
}

abbrev has : String → String → List (Option (String × String)) → Bool
has k v [] = false
has k v (none ∷ rest) = has k v rest
has k v (some (j, w) ∷ rest) = (j == k && w == v) || has k v rest

-- An element of the events has an attribute with this value.
abbrev pub carries : String → String → List Event → Bool
carries k v [] = false
carries k v (start n attrs ∷ rest) = has k v attrs || carries k v rest
carries k v (empty n attrs ∷ rest) = has k v attrs || carries k v rest
carries k v (_ ∷ rest) = carries k v rest

-- An element of the events has this name.
abbrev pub opens : String → List Event → Bool
opens n [] = false
opens n (start m _ ∷ rest) = m == n || opens n rest
opens n (empty m _ ∷ rest) = m == n || opens n rest
opens n (_ ∷ rest) = opens n rest

carries-append :
    (k v : String) (xs ys : List Event)
    → carries k v (xs ++ ys) ≡ (carries k v xs || carries k v ys)
carries-append k v [] ys = refl
carries-append k v (start n a ∷ xs) ys = ground (arith, carries-append k v xs ys)
carries-append k v (empty n a ∷ xs) ys = ground (arith, carries-append k v xs ys)
carries-append k v (Event.end n ∷ xs) ys = carries-append k v xs ys
carries-append k v (Event.text t ∷ xs) ys = carries-append k v xs ys
carries-append k v (Event.general_ref t ∷ xs) ys = carries-append k v xs ys
carries-append k v (Event.other ∷ xs) ys = carries-append k v xs ys

module _ (escape : String → String) (apart : escape "no" ≢ escape "yes") where
  yes_or_no : (escape "no" == escape "yes") ≡ false
  yes_or_no = ground (arith, eq_iff (escape "no") (escape "yes"))

  abbrev yes : List Event → Bool
  yes es = carries "secure" (escape "yes") es

  text-carries :
      (n t : String) (a : Attributes)
      → yes (write_text_element_with_attrs escape n t a)
        ≡ has "secure" (escape "yes") (escape_attributes escape a)
  unfolding write_text_element_with_attrs start_element write_text end_element
  text-carries n String.[] a = ground arith
  text-carries n (String.◌∷◌ c t) a = ground arith

  -- A part that can be written asks for secure boot, or does not.
  abbrev Asks : Bool → Result (List Event) → Type 0
  Asks answer (ok es) = yes es ≡ answer
  Asks answer (err e) = Unit

  nvram-Asks : (p f : Option String) → Asks false (nvram_events escape p f)
  unfolding nvram_events
  nvram-Asks none f = refl
  nvram-Asks (some p) none = tt
  nvram-Asks (some p) (some f) = text-carries "nvram" p (("format", f) ∷ [])

  custom-Asks : (s : Bool) (c : String) (f : Option String) → Asks s (custom_loader escape s c f)
  unfolding custom_loader
  custom-Asks s c none = tt
  custom-Asks true c (some f) = rw (text-carries, eq_refl (escape "yes")) refl
  custom-Asks false c (some f) = rw text-carries refl

  selected-Asks : (s i : Bool) → yes (selected_loader escape s i) ≡ s
  unfolding selected_loader write_empty_element
  selected-Asks s i = ground (arith, eq_refl (escape "yes"), yes_or_no)

  both-Asks :
      (a : Bool) (r q : Result (List Event))
      → Asks a r
      → Asks false q
      → Asks a (r >>= λ xs. q >>= λ ys. ok (xs ++ ys))
  both-Asks a (err e) q h k = tt
  both-Asks a (ok xs) (err e) h k = tt
  both-Asks a (ok xs) (ok ys) h k =
      rw (carries-append "secure" (escape "yes") xs ys, h, k) (ground arith)

  uefi-Asks :
      (o : Option String) (b : DomainBuilder) → Asks (secure_boot b) (uefi_loader escape o b)
  unfolding uefi_loader
  uefi-Asks none b = selected-Asks (secure_boot b) (insecure_boot b)
  uefi-Asks (some c) b =
      both-Asks (secure_boot b) _ _ (custom-Asks (secure_boot b) c b.ovmf_code_format)
        (nvram-Asks b.nvram_path b.nvram_format)

  bios-insecure : (b : DomainBuilder) → use_uefi b ≡ false → secure_boot b ≡ false
  unfolding secure_boot
  bios-insecure b h = ground arith

  either-Asks :
      (t a : Bool) (r : Result (List Event))
      → (t ≡ false → a ≡ false)
      → Asks a r
      → Asks a (if t then r else ok [])
  either-Asks true a r h k = k
  either-Asks false a r h k = sym (h refl)

  loader-Asks : (b : DomainBuilder) → Asks (secure_boot b) (loader_events escape b)
  unfolding loader_events
  loader-Asks b =
      either-Asks (use_uefi b) (secure_boot b) _ (bios-insecure b) (uefi-Asks b.ovmf_code_path b)

pub loader_events-secure :
    (escape : String → String) (b : DomainBuilder) (loader : List Event)
    → escape "no" ≢ escape "yes"
    → loader_events escape b ≡ ok loader
    → carries "secure" (escape "yes") loader ≡ secure_boot b
loader_events-secure escape b loader apart h =
    asked (loader_events escape b) h (loader-Asks escape apart b)
  where
    asked :
        (r : Result (List Event))
        → r ≡ ok loader
        → Asks escape apart (secure_boot b) r
        → carries "secure" (escape "yes") loader ≡ secure_boot b
    asked (ok es) e k = let same : es ≡ loader = cc in rw (← same) k
    asked (err x) e k = cc
