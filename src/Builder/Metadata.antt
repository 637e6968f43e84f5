-- ===== src/Builder/Metadata.antt =====
-- The metadata that the builder of crates/kit/src/libvirt/domain.rs writes is what the listing of
-- crates/kit/src/domain_list.rs finds in the parsed document.
mod Shown
use mathlib.Core.Option
use mathlib.Core.List.{append-nil}
use bcvk.Common.{
  ◌≢◌, ℕ, String, List, [], ◌∷◌, ◌++◌, concat, map, Option, none, some, Bool, true, false, not, ◌≡◌,
  refl, sym, arith, eq_iff, ◌==◌, Bool-cases, inl, inr, if◌then◌else◌, format, or_else, is_empty,
  strip_prefix, unwrap_or, to_string,
}
use bcvk.Result.{Result, ok, err, ok_or, ◌>>=◌, >>=-eq-ok}
use bcvk.Xml.{
  Attributes, get, XmlNode, node, Children, nil, cons, text_content, Event, find, find_children,
  find_with_namespace, parse_xml_dom, write_text_element,
}
use bcvk.Xml.Delivered.{all_kept}
use bcvk.Xml.Feed.{join_children, parser, parse_from-feed}
use bcvk.Arch.{ArchConfig, detect, write_timers}
use bcvk.Builder.{DomainBuilder}
use bcvk.Builder.Devices.{within, each, if_set}
use bcvk.Builder.Document.{
  build_xml, domain_parts, domain_attrs, metadata_events, element_name, loader_events,
}
use bcvk.Builder.Elements.{
  Adds, read_attributes, feed-root, Adds-append, Adds-nil, Adds-within, Adds-text_element,
  find-join,
}
use bcvk.Builder.Plain.{Plain, plain_rules, other_name, Plain-nil}
use bcvk.Builder.Plain.Sections.{
  Plain-devices, Plain-timers, Plain-loader, Plain-os, Plain-features, Plain-commandline,
  IsPlainIfOk,
}
pub use bcvk.Builder.Metadata.Shown.{renamed}
use bcvk.Builder.Metadata.Shown.{Shows, Shows-metadata, Shows-domain}

module _ (unescape : String → Option String) (escape : String → String)
    (read_back : (t : String) → unescape (escape t) ≡ some t) (key : String) where
  Plain-ok :
      (r : Result (List Event)) (es : List Event)
      → r ≡ ok es
      → IsPlainIfOk unescape escape read_back key r
      → Plain unescape escape read_back key es
  Plain-ok (ok xs) es h p = let e : xs ≡ es = cc in rw (← e) p
  Plain-ok (err x) es h p = cc

  parsed :
      (n : String) (a : Attributes) (inside : List (List Event)) (cs : Children)
      → Adds unescape escape (concat inside) cs
      → parse_xml_dom unescape (map ok (within escape n a inside))
        ≡ ok (node n (read_attributes unescape escape a) "" cs)
  unfolding parse_xml_dom
  parsed n a inside cs h =
      rw
        (
          parse_from-feed unescape (parser [] none) (within escape n a inside),
          feed-root unescape escape n a inside cs h,
        )
        refl

  found_in :
      (n : String) (a : Attributes) (cs : Children) (v : String)
      → (n == format ("bootc:" ∷ key ∷ [])) ≡ false
      → Option.map text_content (find_children (format ("bootc:" ∷ key ∷ [])) cs) ≡ some v
      → Option.map text_content (find_with_namespace key (node n a "" cs)) ≡ some v
  unfolding find_with_namespace find
  found_in n a cs v other h = ground (arith)

eq_false : (s t : String) → (s ≢ t) → (s == t) ≡ false
eq_false s t h = elim (Bool-cases (s == t)) [
  | inl same ↦ absurd (h ((eq_iff s t).0 same))
  | inr other ↦ other
]

ok-injective : {A : Type 0} {a b : A} → ok a ≡ ok b → a ≡ b
ok-injective h = cc

-- The events that `build_xml` writes parse, and show the text that the builder holds under a key.
pub build_xml-parsed :
    (unescape : String → Option String) (escape : String → String) (vcpus : ℕ)
    (uuid host_arch : String) (b : DomainBuilder) (events : List Event) (key value : String)
    → ((t : String) → unescape (escape t) ≡ some t)
    → (format ("bootc:" ∷ key ∷ []) ≢ "bootc:container")
    → get (format ("bootc:" ∷ key ∷ [])) (renamed b.metadata) ≡ some value
    → build_xml escape vcpus uuid host_arch b ≡ ok events
    → (dom : XmlNode) × (parse_xml_dom unescape (map ok events) ≡ ok dom)
      × (Option.map text_content (find_with_namespace key dom) ≡ some value)
unfolding build_xml strip_prefix
build_xml-parsed unescape escape vcpus uuid host_arch b events key value read_back other h built =
    let (n, p, e) = >>=-eq-ok (ok_or b.name "Domain name is required") _ built in
    let (c, q, e') = >>=-eq-ok (detect host_arch) _ e in
    let (loader, l, e'') = >>=-eq-ok (loader_events escape b) _ e' in
    let plain =
      Plain-ok unescape escape read_back key (loader_events escape b) loader l
        (Plain-loader unescape escape read_back key b) in
    let container = eq_false "bootc:container" _ (λ s. other (sym s)) in
    let shown =
      Shows-domain unescape escape read_back key vcpus uuid c b n loader value plain
        (Shows-metadata unescape escape read_back key b value container h) in
    rw (← ok-injective e'') (
      _,
      parsed unescape escape read_back key "domain" (domain_attrs b)
          (domain_parts escape vcpus uuid c b n loader) shown.children shown.adds,
      found_in unescape escape read_back key "domain" _ shown.children value
          (other_name unescape escape read_back key "domain" refl) shown.found,
    )

-- In a document that `build_xml` writes and that parses as it was written, `find_with_namespace`, by
-- which the listing reads a domain's metadata, finds under a key the text that the builder holds for
-- it, whatever else was configured. The key is not `container`, with which the namespace is opened;
-- every name is a name, and no written text has a reference (`&`) or white space at its ends. What is
-- taken for granted of the library: unescaping undoes escaping, and for such a document the reader
-- delivers the events as they were written.
pub build_xml-metadata :
    (unescape : String → Option String) (escape : String → String)
    (reader : List Event → List (Result Event)) (vcpus : ℕ) (uuid host_arch : String)
    (b : DomainBuilder) (events : List Event) (key value : String)
    → ((t : String) → unescape (escape t) ≡ some t)
    → (all_kept events ≡ true → reader events ≡ map ok events)
    → all_kept events ≡ true
    → (format ("bootc:" ∷ key ∷ []) ≢ "bootc:container")
    → get (format ("bootc:" ∷ key ∷ [])) (renamed b.metadata) ≡ some value
    → build_xml escape vcpus uuid host_arch b ≡ ok events
    → (dom : XmlNode) × (parse_xml_dom unescape (reader events) ≡ ok dom)
      × (Option.map text_content (find_with_namespace key dom) ≡ some value)
build_xml-metadata unescape escape reader vcpus uuid host_arch b events key value read_back delivers
      kept other h built =
    rw (delivers kept) (
      build_xml-parsed unescape escape vcpus uuid host_arch b events key value read_back other h
        built)
