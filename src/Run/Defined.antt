-- ===== src/Run/Defined.antt =====
-- The domain that `bcvk libvirt run` defines (crates/kit/src/libvirt/run.rs) and its image as the
-- listing of crates/kit/src/domain_list.rs reads it.
use mathlib.Core.Option
use mathlib.Core.List.{append_assoc}
use bcvk.Common.{
  String, Bool, true, false, Option, some, List, [], ◌∷◌, ◌++◌, map, ◌≡◌, ◌≢◌, refl, sym, ◌∙◌, ap,
  All, eq_iff, arith, format, ◌⊎◌, inl, inr, Bool-cases, concat, if◌then◌else◌,
}
use bcvk.Result
use bcvk.Result.{Result, ok, ok_or}
use bcvk.Host.{Machine, Action}
use bcvk.Host.Exec
use bcvk.Host.Exec.{
  Exec, pure, fail, lift, virsh, with_context, create_temp, write_file, ◌>>◌, pure-eq-ok,
}
use bcvk.Host.Returns.{passed, context-ok}
use bcvk.Xml.Delivered.{all_kept}
use bcvk.Arch.{ArchConfig, detect}
use bcvk.Builder.Devices.{within}
use bcvk.Xml.{
  Attributes, get, start_element, write_text_element, XmlNode, Event, text_content, parse_xml_dom,
  find_with_namespace,
}
use bcvk.Builder.{DomainBuilder}
use bcvk.Builder.Document.{build_xml, domain_parts, domain_attrs, loader_events}
use bcvk.Builder.Metadata.{build_xml-metadata, renamed}
use bcvk.Run.{LibvirtRunOpts, RunHost, run_virsh_cmd}
use bcvk.Run.Create.{domain_builder, define_domain, create_libvirt_domain_from_disk}
use bcvk.Run.Metadata.{domain_builder-Tells}
use bcvk.Run.Metadata.Notes.{Other}

no_container : format ("bootc:" ∷ "source-image" ∷ []) ≢ "bootc:container"
no_container e = ground (arith, eq_iff "bootc:source-image" "bootc:container")

module _ {W : Type 0} (r : RunHost W) where
  -- the calls that define a domain and start it, the newest first
  abbrev pub defining : Bool → String → String → List Action
  defining true name xml_path = Action.virsh ("create" ∷ xml_path ∷ []) ∷ []
  defining false name xml_path =
      Action.virsh ("start" ∷ name ∷ []) ∷ Action.virsh ("define" ∷ xml_path ∷ []) ∷ []

  run_virsh_cmd-log :
      (uri : Option String) (args : List String) (message : String) (s t : Machine W)
      → run_virsh_cmd r uri args message s ≡ (ok tt, t)
      → t.log ≡ Action.virsh args ∷ s.log
  unfolding run_virsh_cmd virsh with_context
  run_virsh_cmd-log uri args message s t h =
      let (o, u, e, k) = Exec.>>=-eq-ok (with_context (virsh r.host uri args) _) _ s h in
      let called : Action.virsh args ∷ s.log ≡ u.log = ap (λ p. p.1.log) e in
      sym (called ∙ ap (λ m. m.log) (passed o.success _ u t k).1)

  define_domain-log :
      (uri : Option String) (name : String) (opts : LibvirtRunOpts) (xml : String) (s t : Machine W)
      → define_domain r uri name opts xml s ≡ (ok tt, t)
      → t.log ≡ defining opts.transient name xml ++ s.log
  unfolding define_domain
  define_domain-log uri name opts xml s t h = split opts.transient h
    where
      split :
          (b : Bool)
          → (if b
                then run_virsh_cmd r uri
                    ("create" ∷ xml ∷ [])
                    "Failed to create transient libvirt domain"
                else run_virsh_cmd r uri ("define" ∷ xml ∷ []) "Failed to define libvirt domain"
                  >> run_virsh_cmd r uri ("start" ∷ name ∷ []) "Failed to start libvirt domain")
              s
            ≡ (ok tt, t)
          → t.log ≡ defining b name xml ++ s.log
      split true k = run_virsh_cmd-log uri _ _ s t k
      split false k =
          let (_, u, d, e) = Exec.>>=-eq-ok (run_virsh_cmd r uri ("define" ∷ xml ∷ []) _) _ s k in
          run_virsh_cmd-log uri _ _ u t e
          ∙ ap (λ l. Action.virsh ("start" ∷ name ∷ []) ∷ l) (run_virsh_cmd-log uri _ _ s u d)

  -- The listing finds this image in the document, as the reader delivers it.
  pub record ShowsImage (unescape : String → Option String)
      (reader : List Event → List (Result Event)) (image : String) (events : List Event)
      : Type 0 where
    pub dom : XmlNode
    pub parsed : parse_xml_dom unescape (reader events) ≡ ok dom
    pub found : Option.map text_content (find_with_namespace "source-image" dom) ≡ some image

  -- The domain's document begins with its name and shows its image, unless it has texts that the
  -- reader does not deliver as they were written, and libvirt was given the file that the document
  -- was written to.
  pub record Defined (unescape : String → Option String) (reader : List Event → List (Result Event))
      (name : String) (opts : LibvirtRunOpts) (t : Machine W) : Type 0 where
    pub builder : DomainBuilder
    pub events : List Event
    pub built : build_xml r.escape r.default_vcpus r.new_uuid r.arch builder ≡ ok events
    pub opens :
        (attrs : Attributes) × (rest : List Event) × (events
          ≡ start_element r.escape "domain" attrs
            ++ (write_text_element r.escape "name" name ++ rest))
    pub shows : (all_kept events ≡ false) ⊎ ShowsImage unescape reader opts.image events
    pub xml_path : String
    pub from : W
    pub written : (r.host.write_file xml_path (r.document events) from).0 ≡ ok tt
    pub before : List Action
    pub calls :
        t.log ≡ defining opts.transient name xml_path ++ (Action.write_file xml_path ∷ before)

-- What is taken for granted of the libraries: unescaping undoes escaping, and of a document of
-- `build_xml` that has no text with a reference the reader delivers the events as written.
pub record Reads {W : Type 0} (r : RunHost W) (unescape : String → Option String)
    (reader : List Event → List (Result Event)) : Type 0 where
  pub back : (x : String) → unescape (r.escape x) ≡ some x
  pub delivers :
      (b : DomainBuilder) (es : List Event)
      → build_xml r.escape r.default_vcpus r.new_uuid r.arch b ≡ ok es
      → all_kept es ≡ true
      → reader es ≡ map ok es

build_xml-opens :
    {W : Type 0} (r : RunHost W) (b : DomainBuilder) (events : List Event) (name : String)
    → b.name ≡ some name
    → build_xml r.escape r.default_vcpus r.new_uuid r.arch b ≡ ok events
    → (attrs : Attributes) × (rest : List Event) × (events
        ≡ start_element r.escape "domain" attrs
          ++ (write_text_element r.escape "name" name ++ rest))
unfolding build_xml domain_parts within concat
build_xml-opens r b events name called built =
    let (n, p, e) = Result.>>=-eq-ok (ok_or b.name "Domain name is required") _ built in
    let (c, q, e') = Result.>>=-eq-ok (detect r.arch) _ e in
    let (loader, l, e'') = Result.>>=-eq-ok (loader_events r.escape b) _ e' in
    let same : n ≡ name = cc in
    let whole : within r.escape "domain" (domain_attrs b)
          (domain_parts r.escape r.default_vcpus r.new_uuid c b n loader)
        ≡ events =
      cc in
    let (rest, o) = opening c n loader in
    (
      domain_attrs b,
      rest,
      sym whole
          ∙ o
          ∙ ap
              (λ m.
                start_element r.escape "domain" (domain_attrs b)
                ++ (write_text_element r.escape "name" m ++ rest))
              same,
    )
  where
    opening :
        (c : ArchConfig) (n : String) (loader : List Event)
        → (rest : List Event) × (within r.escape "domain"
              (domain_attrs b)
              (domain_parts r.escape r.default_vcpus r.new_uuid c b n loader)
            ≡ start_element r.escape "domain" (domain_attrs b)
              ++ (write_text_element r.escape "name" n ++ rest))
    opening c n loader = (
      _,
      ap (λ es. start_element r.escape "domain" (domain_attrs b) ++ es)
          (append_assoc (write_text_element r.escape "name" n) _ _),
    )

shown_or_not :
    {W : Type 0} (r : RunHost W) (unescape : String → Option String)
    (reader : List Event → List (Result Event)) (b : DomainBuilder) (events : List Event)
    (image : String)
    → Reads r unescape reader
    → get (format ("bootc:" ∷ "source-image" ∷ [])) (renamed b.metadata) ≡ some image
    → build_xml r.escape r.default_vcpus r.new_uuid r.arch b ≡ ok events
    → (all_kept events ≡ false) ⊎ ShowsImage r unescape reader image events
shown_or_not r unescape reader b events image reads told built =
    elim (Bool-cases (all_kept events)) [
      | inl kept ↦
          let (dom, parsed, found) =
            build_xml-metadata unescape r.escape reader r.default_vcpus r.new_uuid r.arch b events
              "source-image" image reads.back (reads.delivers b events built) kept no_container told
              built in
          inr (record { dom = dom; parsed = parsed; found = found })
      | inr other ↦ inl other
    ]

-- When the creation of a domain returns without an error, its newest calls write a document to a
-- file, define a domain of that file and start it (or create it, where it is transient). The
-- document begins with the domain's name, and `find_with_namespace`, by which the listing reads the
-- image, finds in it the image that was asked for, unless a text of the document has a reference or
-- white space at its ends: no later step changes them. The caller's own metadata has no key for the
-- image.
pub create_libvirt_domain_from_disk-Defined :
    {W : Type 0} (r : RunHost W) (unescape : String → Option String)
    (reader : List Event → List (Result Event)) (uri : Option String) (name disk digest : String)
    (opts : LibvirtRunOpts) (s t : Machine W)
    → Reads r unescape reader
    → All Other opts.metadata
    → create_libvirt_domain_from_disk r uri name disk digest opts s ≡ (ok tt, t)
    → Defined r unescape reader name opts t
unfolding create_libvirt_domain_from_disk with_context lift create_temp write_file
create_libvirt_domain_from_disk-Defined r unescape reader uri name disk digest opts s t reads others
      h =
    let (b, u, d, h1) = Exec.>>=-eq-ok (domain_builder r uri name disk digest opts) _ s h in
    let (events, v, l, h2) = Exec.>>=-eq-ok _ _ u h1 in
    let (xml, x, c, h3) = Exec.>>=-eq-ok (create_temp r.host "bcvk-libvirt" "" "") _ v h2 in
    let (_, y, w, h4) =
      Exec.>>=-eq-ok (with_context (write_file r.host xml (r.document events)) _) _ x h3 in
    let told =
      (domain_builder-Tells r name opts.image uri name disk digest opts refl refl others).returned s
        b u d in
    let built =
      context-ok (build_xml r.escape r.default_vcpus r.new_uuid r.arch b) _ events
        (ap (λ p. p.0) l) in
    record {
      builder = b;
      events = events;
      built = built;
      opens = build_xml-opens r b events name told.named built;
      shows = shown_or_not r unescape reader b events opts.image reads told.told built;
      xml_path = xml;
      from = x.world;
      written = context-ok _ _ tt (ap (λ p. p.0) w);
      before = x.log;
      calls =
          define_domain-log r uri name opts xml y t h4
          ∙ ap (λ l. defining r opts.transient name xml ++ l) (sym (ap (λ p. p.1.log) w));
    }
