-- ===== src/Builder/Plain.antt =====
-- The parts of the domain's XML (crates/kit/src/libvirt/domain.rs) outside its metadata have no
-- element of bcvk's namespace.
pub mod Sections
use Prim.Native.String
use text.Mathlib.TextLemmas.{nil-append, cons-append}
use bcvk.Common.{
  String, List, [], ◌∷◌, ◌++◌, concat, Option, none, some, Bool, true, false, ◌≡◌, refl, arith,
  eq_iff, ◌==◌, Bool-cases, inl, inr, sym, ap, ◌∙◌, if◌then◌else◌, format, strip_prefix, or_else,
}
use bcvk.Xml.{
  Attributes, node, Children, nil, cons, Event, find, find_children, write_empty_element,
  write_text_element, write_text_element_with_attrs,
}
use bcvk.Xml.Feed.{join_children}
use bcvk.Arch.{ArchConfig, cpu_mode, write_timers}
use bcvk.Builder.{DomainBuilder, VirtiofsFilesystem, FirmwareLogOutput}
use bcvk.Builder.Elements.{
  Adds, Adds-nil, Adds-append, Adds-empty, Adds-within, Adds-text_element,
  Adds-text_element_with_attrs, find-join,
}
use bcvk.Builder.Devices.{
  within, if_set, if_some, each, disk_events, ignition_events, named_network_events, network_events,
  console_events, journal_events, firmware_log_events, graphics_events, filesystem_events,
  tpm_events, device_events,
}

strip_prefix-append : (p s : String) → strip_prefix p (String.◌++◌ p s) ≡ some s
unfolding strip_prefix
strip_prefix-append String.[] s = rw nil-append refl
strip_prefix-append (String.◌∷◌ c p) s = rw cons-append (ground (arith, strip_prefix-append p s))

module _ (unescape : String → Option String) (escape : String → String)
    (read_back : (t : String) → unescape (escape t) ≡ some t) (key : String) where
  abbrev wanted : String
  wanted = format ("bootc:" ∷ key ∷ [])

  pub other_name : (n : String) → strip_prefix "bootc:" n ≡ none → (n == wanted) ≡ false
  other_name n h = elim (Bool-cases (n == wanted)) [
    | inl same ↦
        let found = strip_prefix-append "bootc:" key in
        let is = (eq_iff n wanted).0 same in
        let clash : none ≡ some key = sym h ∙ ap (strip_prefix "bootc:") is ∙ found in cc
    | inr other ↦ other
  ]

  -- The events add elements, and none of them, at any depth, has the name that is looked for.
  pub record Plain (es : List Event) : Type 0 where
    pub children : Children
    pub adds : Adds unescape escape es children
    pub missing : find_children wanted children ≡ none

  pub Plain-nil : Plain []
  unfolding find
  Plain-nil = record { children = nil; adds = Adds-nil unescape escape; missing = refl }

  pub Plain-append : (xs ys : List Event) → Plain xs → Plain ys → Plain (xs ++ ys)
  Plain-append xs ys p q = record {
    children = join_children p.children q.children;
    adds = Adds-append unescape escape xs ys p.children q.children p.adds q.adds;
    missing = rw (find-join wanted p.children q.children, p.missing) q.missing;
  }

  pub Plain-concat_nil : Plain (concat [])
  unfolding concat
  Plain-concat_nil = Plain-nil

  pub Plain-concat_cons :
      (xs : List Event) (rest : List (List Event))
      → Plain xs
      → Plain (concat rest)
      → Plain (concat (xs ∷ rest))
  unfolding concat
  Plain-concat_cons xs rest p q = Plain-append xs (concat rest) p q

  pub Plain-if :
      (b : Bool) (xs ys : List Event) → Plain xs → Plain ys → Plain (if b then xs else ys)
  Plain-if true xs ys p q = p
  Plain-if false xs ys p q = q

  pub Plain-if_some :
      {A : Type 0} (o : Option A) (f : A → List Event)
      → ((a : A) → Plain (f a))
      → Plain (if_some o f)
  Plain-if_some none f p = Plain-nil
  Plain-if_some (some a) f p = p a

  pub Plain-each :
      {A : Type 0} (f : A → List Event) (items : List A)
      → ((a : A) → Plain (f a))
      → Plain (each f items)
  unfolding each
  Plain-each f [] p = Plain-nil
  Plain-each f (a ∷ rest) p = Plain-append (f a) (each f rest) (p a) (Plain-each f rest p)

  pub Plain-empty :
      (n : String) (a : Attributes)
      → strip_prefix "bootc:" n ≡ none
      → Plain (write_empty_element escape n a)
  unfolding find
  Plain-empty n a h = record {
    children = _;
    adds = Adds-empty unescape escape n a;
    missing = rw (other_name n h) refl;
  }

  pub Plain-text :
      (n t : String) → strip_prefix "bootc:" n ≡ none → Plain (write_text_element escape n t)
  unfolding find
  Plain-text n t h = record {
    children = _;
    adds = Adds-text_element unescape escape read_back n t;
    missing = rw (other_name n h) refl;
  }

  pub Plain-text_with_attrs :
      (n t : String) (a : Attributes)
      → strip_prefix "bootc:" n ≡ none
      → Plain (write_text_element_with_attrs escape n t a)
  unfolding find
  Plain-text_with_attrs n t a h = record {
    children = _;
    adds = Adds-text_element_with_attrs unescape escape read_back n t a;
    missing = rw (other_name n h) refl;
  }

  pub Plain-within :
      (n : String) (a : Attributes) (inside : List (List Event))
      → strip_prefix "bootc:" n ≡ none
      → Plain (concat inside)
      → Plain (within escape n a inside)
  unfolding find
  Plain-within n a inside h p = record {
    children = _;
    adds = Adds-within unescape escape n a inside p.children p.adds;
    missing = rw (other_name n h, p.missing) refl;
  }

  pub ruleset plain_rules = (
    Plain-nil, Plain-append, Plain-concat_nil, Plain-concat_cons, Plain-if, Plain-if_some,
    Plain-each, Plain-empty, Plain-text, Plain-text_with_attrs, Plain-within,
  )
