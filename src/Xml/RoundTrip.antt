-- ===== src/Xml/RoundTrip.antt =====
-- What `write_xml_node` (crates/kit/src/libvirt_upload_disk.rs) writes is read back by
-- `parse_xml_dom` (crates/kit/src/xml_utils.rs).
use mathlib.Core.List.{append-nil, append_assoc}
use text.Mathlib.TextLemmas.{nil-append}
use bcvk.Common.{
  String, List, [], ◌∷◌, ◌++◌, map, Option, none, some, true, ◌≡◌, refl, sym, ap, ◌∙◌, arith,
  eq_iff, All, ◌==◌, if◌then◌else◌,
}
use bcvk.Result.{Result, ok}
use bcvk.Xml.Delivered.{all_kept}
use bcvk.Xml.Feed.{
  feed, feed-append, parse_from-feed, join_children, join-push_child, join-nil, parser,
}
use bcvk.Xml.{
  Attributes, insert, get, collect, escape_attributes, XmlNode, node, Children, nil, cons,
  push_child, Event, Parser, on_event, pop_completed, push_empty, parse_xml_dom, write_xml_node,
  write_children, start_element, write_text, end_element,
}

abbrev pub HasDistinctKeys : Attributes → Type 0
HasDistinctKeys [] = Unit
HasDistinctKeys ((k, v) ∷ m) = (get k m ≡ none) × HasDistinctKeys m

insert-fresh : (k v : String) (m : Attributes) → get k m ≡ none → insert k v m ≡ m ++ ((k, v) ∷ [])
unfolding insert get
insert-fresh k v [] h = refl
insert-fresh k v ((j, w) ∷ m) h = ground (arith, insert-fresh k v m)

get-concat :
    (k j v : String) (m : Attributes)
    → get j (m ++ ((k, v) ∷ []))
      ≡ elim (get j m) [ none ↦ (if k == j then some v else none) | some w ↦ some w ]
unfolding get
get-concat k j v [] = refl
get-concat k j v ((i, w) ∷ m) = ground (arith, get-concat k j v m)

-- No key of the second map is in the first.
abbrev IsFresh : Attributes → Attributes → Type 0
IsFresh m attrs = All (λ a. get a.0 m ≡ none) attrs

IsFresh-concat :
    (k v : String) (m attrs : Attributes)
    → IsFresh m attrs
    → get k attrs ≡ none
    → IsFresh (m ++ ((k, v) ∷ [])) attrs
unfolding get
IsFresh-concat k v m [] h g = tt
IsFresh-concat k v m ((j, w) ∷ attrs) h g = (
  rw get-concat (ground (arith, eq_iff k j, eq_iff j k)),
  IsFresh-concat k v m attrs h.1 (ground arith),
)

-- The parser keeps an attribute's value as it stands in the markup, so a value must be one that the
-- writer does not change.
module _ (unescape : String → Option String) (escape : String → String) where
  abbrev pub IsPlain : Attributes → Type 0
  IsPlain attrs = All (λ a. escape a.1 ≡ a.1) attrs

  abbrev mutual
    pub IsWritable : XmlNode → Type 0
    IsWritable (node n a t c) = HasDistinctKeys a × IsPlain a × AreWritable c

    pub AreWritable : Children → Type 0
    AreWritable nil = Unit
    AreWritable (cons n rest) = IsWritable n × AreWritable rest

  collect-escape_attributes :
      (m attrs : Attributes)
      → IsFresh m attrs
      → HasDistinctKeys attrs
      → IsPlain attrs
      → collect m (escape_attributes escape attrs) ≡ m ++ attrs
  unfolding collect
  collect-escape_attributes m [] f d p = sym (append-nil m)
  collect-escape_attributes m ((k, v) ∷ attrs) f d p =
      rw (p.0, insert-fresh k v m f.0)
        (collect-escape_attributes (m ++ ((k, v) ∷ [])) attrs (IsFresh-concat k v m attrs f.1 d.0)
            d.1 p.1
          ∙ append_assoc m ((k, v) ∷ []) attrs)

  IsFresh-nil : (attrs : Attributes) → IsFresh [] attrs
  unfolding get
  IsFresh-nil [] = tt
  IsFresh-nil (a ∷ attrs) = (refl, IsFresh-nil attrs)

  collected :
      (attrs : Attributes)
      → HasDistinctKeys attrs
      → IsPlain attrs
      → collect [] (escape_attributes escape attrs) ≡ attrs
  collected attrs d p = collect-escape_attributes [] attrs (IsFresh-nil attrs) d p

  feed-element :
      (p : Parser) (xs ys zs ws : List Event)
      → feed unescape p (xs ++ (ys ++ (zs ++ ws)))
        ≡ feed unescape (feed unescape (feed unescape p (xs ++ ys)) zs) ws
  feed-element p xs ys zs ws = simp feed-append

  -- An empty element at the top does not replace a root.
  abbrev IsOpen : List XmlNode → Option XmlNode → Type 0
  IsOpen [] (some r) = ⊥
  IsOpen _ _ = Unit

  push_empty-eq-pop :
      (n : XmlNode) (stack : List XmlNode) (root : Option XmlNode)
      → IsOpen stack root
      → push_empty unescape n stack root ≡ pop_completed unescape (n ∷ stack) root
  unfolding push_empty pop_completed
  push_empty-eq-pop n [] none o = refl
  push_empty-eq-pop n [] (some r) o = absurd o
  push_empty-eq-pop n (p ∷ stack) root o = refl

  module _ (read_back : (t : String) → unescape (escape t) ≡ some t) where
    -- an element's start and its text
    feed-opening :
        (n : String) (a : Attributes) (t : String) (stack : List XmlNode) (root : Option XmlNode)
        → HasDistinctKeys a
        → IsPlain a
        → feed unescape (parser stack root) (start_element escape n a ++ write_text escape t)
          ≡ parser (node n a t nil ∷ stack) root
    unfolding feed on_event start_element write_text
    feed-opening n a String.[] stack root d p = rw (collected a d p)
    feed-opening n a (String.◌∷◌ c t) stack root d p =
        rw (collected a d p, read_back (String.◌∷◌ c t), nil-append)

    -- an element without children
    feed-leaf :
        (n : String) (a : Attributes) (t : String) (stack : List XmlNode) (root : Option XmlNode)
        → HasDistinctKeys a
        → IsPlain a
        → IsOpen stack root
        → feed unescape (parser stack root) (write_xml_node escape (node n a t nil))
          ≡ pop_completed unescape (node n a t nil ∷ stack) root
    unfolding feed on_event write_xml_node
    feed-leaf n a String.[] stack root d p o =
        rw (collected a d p) (push_empty-eq-pop (node n a "" nil) stack root o)
    feed-leaf n a (String.◌∷◌ c t) stack root d p o =
        rw (collected a d p, read_back (String.◌∷◌ c t))
          (ap (λ s. pop_completed unescape (node n a s nil ∷ stack) root)
            (nil-append (String.◌∷◌ c t)))

    module _ (n : String) (a : Attributes) (t : String) (d : HasDistinctKeys a)
        (p : IsPlain a) where
      -- an element around its children
      feed-element_with :
          (c : XmlNode) (cs : Children) (stack : List XmlNode) (root : Option XmlNode)
          → feed unescape (parser (node n a t nil ∷ stack) root) (write_children escape (cons c cs))
            ≡ parser (node n a t (cons c cs) ∷ stack) root
          → feed unescape (parser stack root) (write_xml_node escape (node n a t (cons c cs)))
            ≡ pop_completed unescape (node n a t (cons c cs) ∷ stack) root
      unfolding write_xml_node
      feed-element_with c cs stack root inner =
          feed-element (parser stack root) (start_element escape n a) (write_text escape t)
            (write_children escape (cons c cs)) (end_element escape n)
          ∙ rw (feed-opening n a t stack root d p, inner) (unfold feed end_element on_event in refl)

    feed-nothing : (p : Parser) → feed unescape p (write_children escape nil) ≡ p
    unfolding feed write_xml_node
    feed-nothing p = refl

    feed-children_cons :
        (p : Parser) (c : XmlNode) (cs : Children)
        → feed unescape p (write_children escape (cons c cs))
          ≡ feed unescape (feed unescape p (write_xml_node escape c)) (write_children escape cs)
    unfolding write_xml_node
    feed-children_cons p c cs =
        feed-append unescape p (write_xml_node escape c) (write_children escape cs)

    pop-child :
        (c : XmlNode) (done : Children) (n : String) (a : Attributes) (t : String)
        (stack : List XmlNode) (root : Option XmlNode)
        → pop_completed unescape (c ∷ node n a t done ∷ stack) root
          ≡ parser (node n a t (push_child c done) ∷ stack) root
    unfolding pop_completed
    pop-child c done n a t stack root = refl

    mutual
      unfolding join_children

      feed-write_xml_node :
          (n : XmlNode) (stack : List XmlNode) (root : Option XmlNode)
          → IsOpen stack root
          → IsWritable n
          → feed unescape (parser stack root) (write_xml_node escape n)
            ≡ pop_completed unescape (n ∷ stack) root
      feed-write_xml_node (node n a t nil) stack root o w = feed-leaf n a t stack root w.0 w.1 o
      feed-write_xml_node (node n a t (cons c cs)) stack root o w =
          feed-element_with n a t w.0 w.1 c cs stack root
            (feed-write_children (cons c cs) nil n a t stack root w.2)

      feed-write_children :
          (cs done : Children) (n : String) (a : Attributes) (t : String) (stack : List XmlNode)
          (root : Option XmlNode)
          → AreWritable cs
          → feed unescape (parser (node n a t done ∷ stack) root) (write_children escape cs)
            ≡ parser (node n a t (join_children done cs) ∷ stack) root
      feed-write_children nil done n a t stack root w = rw join-nil (feed-nothing _)
      feed-write_children (cons c cs) done n a t stack root w =
          feed-children_cons (parser (node n a t done ∷ stack) root) c cs
          ∙ rw
              (
                feed-write_xml_node c (node n a t done ∷ stack) root tt w.0,
                pop-child,
                ← join-push_child done c cs,
              )
              (feed-write_children cs (push_child c done) n a t stack root w.1)

parse_xml_dom-written :
    (unescape : String → Option String) (escape : String → String) (n : XmlNode)
    → ((t : String) → unescape (escape t) ≡ some t)
    → IsWritable unescape escape n
    → parse_xml_dom unescape (map ok (write_xml_node escape n)) ≡ ok n
unfolding parse_xml_dom
parse_xml_dom-written unescape escape n read_back w = rw (
  parse_from-feed unescape (record { stack = []; root = none }) (write_xml_node escape n),
  feed-write_xml_node unescape escape read_back n [] none tt w,
  pop_completed,
)

-- Writing an element tree by `write_xml_node` and parsing what the reader delivers for the document
-- gives the tree back, if every element's attributes have distinct names and values that the writer
-- leaves as they are, every name is a name, and no written text has a reference (`&`) or white space
-- at its ends. What is taken for granted of the library: unescaping undoes escaping, and for such a
-- document the reader delivers the events as they were written. (A text with a reference does not
-- come back: the parser passes over the event that the reader delivers for it.)
pub parse_xml_dom-write_xml_node :
    (unescape : String → Option String) (escape : String → String)
    (reader : List Event → List (Result Event)) (n : XmlNode)
    → ((t : String) → unescape (escape t) ≡ some t)
    → (all_kept (write_xml_node escape n) ≡ true
        → reader (write_xml_node escape n) ≡ map ok (write_xml_node escape n))
    → IsWritable unescape escape n
    → all_kept (write_xml_node escape n) ≡ true
    → parse_xml_dom unescape (reader (write_xml_node escape n)) ≡ ok n
parse_xml_dom-write_xml_node unescape escape reader n read_back delivers w kept =
    rw (delivers kept) (parse_xml_dom-written unescape escape n read_back w)
