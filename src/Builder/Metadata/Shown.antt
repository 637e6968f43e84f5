-- ===== src/Builder/Metadata/Shown.antt =====
-- The metadata of the builder of crates/kit/src/libvirt/domain.rs in its document.
use mathlib.Core.Option
use mathlib.Core.List.{append-nil}
use bcvk.Common.{
  ℕ, String, List, [], ◌∷◌, ◌++◌, concat, map, Option, none, some, false, not, ◌≡◌, refl, arith,
  ◌==◌, Bool-cases, inl, inr, format, or_else, is_empty, strip_prefix,
}
use bcvk.Xml.{
  Attributes, get, XmlNode, node, Children, nil, cons, text_content, Event, find, find_children,
  write_text_element,
}
use bcvk.Xml.Feed.{join_children}
use bcvk.Arch.{ArchConfig}
use bcvk.Builder.{DomainBuilder}
use bcvk.Builder.Devices.{within, each, if_set}
use bcvk.Builder.Document.{domain_parts, metadata_events, element_name}
use bcvk.Builder.Elements.{Adds, Adds-append, Adds-nil, Adds-within, Adds-text_element, find-join}
use bcvk.Builder.Plain.{Plain, plain_rules, other_name}
use bcvk.Builder.Plain.Sections.{
  Plain-devices, Plain-timers, Plain-os, Plain-features, Plain-commandline,
}

-- the elements that the metadata is written as
abbrev pub renamed : Attributes → Attributes
renamed metadata = map (λ m. (element_name m.0, m.1)) metadata

module _ (unescape : String → Option String) (escape : String → String)
    (read_back : (t : String) → unescape (escape t) ≡ some t) (key : String) where
  abbrev pub name : String
  name = format ("bootc:" ∷ key ∷ [])

  -- The first element with the name that is looked for has this text.
  pub record Shows (es : List Event) (value : String) : Type 0 where
    pub children : Children
    pub adds : Adds unescape escape es children
    pub found : Option.map text_content (find_children name children) ≡ some value

  Shows-after :
      (xs ys : List Event) (v : String)
      → Plain unescape escape read_back key xs
      → Shows ys v
      → Shows (xs ++ ys) v
  Shows-after xs ys v p q = record {
    children = join_children p.children q.children;
    adds = Adds-append unescape escape xs ys p.children q.children p.adds q.adds;
    found = rw (find-join name p.children q.children, p.missing) q.found;
  }

  abbrev entry : String × String → List Event
  entry m = write_text_element escape (element_name m.0) m.1

  abbrev entry_element : String → String → Children
  entry_element k t = cons (node (element_name k) [] t nil) nil

  Adds-entry : (k t : String) → Adds unescape escape (entry (k, t)) (entry_element k t)
  Adds-entry k t = Adds-text_element unescape escape read_back (element_name k) t

  Adds-entries :
      (metadata : Attributes) → (cs : Children) × Adds unescape escape (each entry metadata) cs
  unfolding each
  Adds-entries [] = (nil, Adds-nil unescape escape)
  Adds-entries ((k, t) ∷ rest) =
      let (cs, a) = Adds-entries rest in
      (
        join_children (entry_element k t) cs,
        Adds-append unescape escape _ _ _ cs (Adds-entry k t) a,
      )

  Shows-entries :
      (metadata : Attributes) (v : String)
      → get name (renamed metadata) ≡ some v
      → Shows (each entry metadata) v
  unfolding each get find
  Shows-entries [] v h = cc
  Shows-entries ((k, t) ∷ rest) v h = elim (Bool-cases (element_name k == name)) [
    | inl same ↦
        let (cs, a) = Adds-entries rest in
        record {
          children = join_children (entry_element k t) cs;
          adds = Adds-append unescape escape _ _ _ cs (Adds-entry k t) a;
          found = rw (find-join name (entry_element k t) cs, same) (ground (arith));
        }
    | inr other ↦
        let q = Shows-entries rest v (ground arith) in
        record {
          children = join_children (entry_element k t) q.children;
          adds = Adds-append unescape escape _ _ _ q.children (Adds-entry k t) q.adds;
          found = rw (find-join name (entry_element k t) q.children, other) q.found;
        }
  ]

  Shows-within :
      (n : String) (a : Attributes) (inside : List (List Event)) (v : String)
      → (n == name) ≡ false
      → Shows (concat inside) v
      → Shows (within escape n a inside) v
  unfolding find
  Shows-within n a inside v other q = record {
    children = _;
    adds = Adds-within unescape escape n a inside q.children q.adds;
    found = rw other (nothing_after (find_children name q.children) q.found);
  }
    where
      nothing_after :
          (o : Option XmlNode)
          → Option.map text_content o ≡ some v
          → Option.map text_content (or_else o none) ≡ some v
      nothing_after none h = h
      nothing_after (some n) h = h

  Shows-only : (es : List Event) (v : String) → Shows es v → Shows (concat (es ∷ [])) v
  unfolding concat
  Shows-only es v q = rw (append-nil es) q

  Shows-later :
      (xs : List Event) (rest : List (List Event)) (v : String)
      → Plain unescape escape read_back key xs
      → Shows (concat rest) v
      → Shows (concat (xs ∷ rest)) v
  unfolding concat
  Shows-later xs rest v p q = Shows-after xs (concat rest) v p q

  pub Shows-metadata :
      (b : DomainBuilder) (v : String)
      → ("bootc:container" == name) ≡ false
      → get name (renamed b.metadata) ≡ some v
      → Shows (metadata_events escape b) v
  unfolding metadata_events strip_prefix get
  Shows-metadata b v other h = Shows-filled b.metadata _ v h (
      Shows-within "metadata" [] _ v (other_name unescape escape read_back key "metadata" refl) (
        Shows-only _ v (
          Shows-within "bootc:container" _ _ v other
            (Shows-only _ v (Shows-entries b.metadata v h)))))
    where
      Shows-filled :
          (m : Attributes) (es : List Event) (v : String)
          → get name (renamed m) ≡ some v
          → Shows es v
          → Shows (if_set (not (is_empty m)) es) v
      Shows-filled [] es v h q = cc
      Shows-filled (e ∷ m) es v h q = q

  pub Shows-domain :
      (vcpus : ℕ) (uuid : String) (c : ArchConfig) (b : DomainBuilder) (n : String)
      (loader : List Event) (v : String)
      → Plain unescape escape read_back key loader
      → Shows (metadata_events escape b) v
      → Shows (concat (domain_parts escape vcpus uuid c b n loader)) v
  unfolding domain_parts strip_prefix
  Shows-domain vcpus uuid c b n loader v p q =
      search
        (
          Shows-later, Shows-only, plain_rules, Plain-devices, Plain-timers, Plain-os,
          Plain-features, Plain-commandline,
        )
        depth 60
  -- the root element around what adds `cs`
