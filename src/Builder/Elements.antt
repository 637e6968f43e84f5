-- ===== src/Builder/Elements.antt =====
-- What the events of a part of the domain's XML (crates/kit/src/libvirt/domain.rs) add to the tree
-- that `parse_xml_dom` (crates/kit/src/xml_utils.rs) builds.
use text.Mathlib.TextLemmas.{nil-append}
use bcvk.Common.{
  String, List, [], ◌∷◌, ◌++◌, concat, Option, none, some, ◌≡◌, refl, sym, ap, ◌∙◌, or_else,
}
use bcvk.Xml.{
  Attributes, XmlNode, node, Children, nil, cons, push_child, Event, on_event, find, find_children,
  collect, escape_attributes, start_element, end_element, write_text, write_empty_element,
  write_text_element, write_text_element_with_attrs,
}
use bcvk.Xml.Feed.{feed, feed-append, parser, join_children, join-push_child, join-nil}
use bcvk.Builder.Devices.{within}

join_assoc :
    (xs ys zs : Children)
    → join_children (join_children xs ys) zs ≡ join_children xs (join_children ys zs)
unfolding join_children
join_assoc nil ys zs = refl
join_assoc (cons x xs) ys zs = ap (cons x) (join_assoc xs ys zs)

pub find-join :
    (e : String) (xs ys : Children)
    → find_children e (join_children xs ys) ≡ or_else (find_children e xs) (find_children e ys)
unfolding join_children find
find-join e nil ys = refl
find-join e (cons x xs) ys = rw (find-join e xs ys) (or_else_assoc (find e x) _ _)
  where
    or_else_assoc : (o p q : Option XmlNode) → or_else o (or_else p q) ≡ or_else (or_else o p) q
    or_else_assoc none p q = refl
    or_else_assoc (some x) p q = refl

module _ (unescape : String → Option String) (escape : String → String) where
  -- An element that is open gets `cs` as further children.
  pub record Adds (es : List Event) (cs : Children) : Type 0 where
    pub added :
        (n t : String) (a : Attributes) (done : Children) (stack : List XmlNode)
        (root : Option XmlNode)
        → feed unescape (parser (node n a t done ∷ stack) root) es
          ≡ parser (node n a t (join_children done cs) ∷ stack) root

  abbrev pub one : XmlNode → Children
  one n = cons n nil

  -- the attributes as they are read back
  abbrev pub read_attributes : Attributes → Attributes
  read_attributes a = collect [] (escape_attributes escape a)

  pub Adds-nil : Adds [] nil
  unfolding feed
  Adds-nil = record { added = λ n t a done stack root. rw (join-nil done) refl }

  pub Adds-append :
      (xs ys : List Event) (cs ds : Children)
      → Adds xs cs
      → Adds ys ds
      → Adds (xs ++ ys) (join_children cs ds)
  Adds-append xs ys cs ds ax ay = record {
    added = λ n t a done stack root.
        rw
          (
            feed-append unescape (parser (node n a t done ∷ stack) root) xs ys,
            ax.added n t a done stack root,
            ay.added n t a (join_children done cs) stack root,
            join_assoc done cs ds,
          )
          refl;
  }

  Adds-pushed :
      (es : List Event) (c : XmlNode)
      → ((n t : String) (a : Attributes) (done : Children) (stack : List XmlNode)
            (root : Option XmlNode)
          → feed unescape (parser (node n a t done ∷ stack) root) es
            ≡ parser (node n a t (push_child c done) ∷ stack) root)
      → Adds es (one c)
  Adds-pushed es c h = record {
    added = λ n t a done stack root.
        h n t a done stack root
        ∙ ap (λ d. parser (node n a t d ∷ stack) root)
            (sym (join-nil (push_child c done)) ∙ join-push_child done c nil);
  }

  pub Adds-empty :
      (m : String) (b : Attributes)
      → Adds (write_empty_element escape m b) (one (node m (read_attributes b) "" nil))
  unfolding feed on_event write_empty_element
  Adds-empty m b = Adds-pushed _ _ (λ n t a done stack root. refl)

  opened :
      (m : String) (b : Attributes) (stack : List XmlNode) (root : Option XmlNode)
      → feed unescape (parser stack root) (start_element escape m b)
        ≡ parser (node m (read_attributes b) "" nil ∷ stack) root
  unfolding feed on_event start_element
  opened m b stack root = refl

  closed :
      (m n t : String) (a : Attributes) (done : Children) (stack : List XmlNode)
      (root : Option XmlNode) (c : XmlNode)
      → feed unescape (parser (c ∷ node n a t done ∷ stack) root) (end_element escape m)
        ≡ parser (node n a t (push_child c done) ∷ stack) root
  unfolding feed on_event end_element
  closed m n t a done stack root c = refl

  pub Adds-within :
      (m : String) (b : Attributes) (inside : List (List Event)) (cs : Children)
      → Adds (concat inside) cs
      → Adds (within escape m b inside) (one (node m (read_attributes b) "" cs))
  unfolding within join_children
  Adds-within m b inside cs h = Adds-pushed _ _ (λ n t a done stack root.
      rw
        (
          feed-append unescape (parser (node n a t done ∷ stack) root) (start_element escape m b) _,
          opened m b (node n a t done ∷ stack) root,
          feed-append unescape _ (concat inside) (end_element escape m),
          h.added m "" (read_attributes b) nil (node n a t done ∷ stack) root,
        )
        (closed m n t a done stack root _))

  pub feed-root :
      (m : String) (b : Attributes) (inside : List (List Event)) (cs : Children)
      → Adds (concat inside) cs
      → feed unescape (parser [] none) (within escape m b inside)
        ≡ parser [] (some (node m (read_attributes b) "" cs))
  unfolding within join_children
  feed-root m b inside cs h =
      rw
        (
          feed-append unescape (parser [] none) (start_element escape m b) _,
          opened m b [] none,
          feed-append unescape _ (concat inside) (end_element escape m),
          h.added m "" (read_attributes b) nil [] none,
        )
        (last_closed m (node m (read_attributes b) "" cs))
    where
      last_closed :
          (m : String) (c : XmlNode)
          → feed unescape (parser (c ∷ []) none) (end_element escape m) ≡ parser [] (some c)
      last_closed m c = unfold feed on_event end_element in refl

  module _ (read_back : (t : String) → unescape (escape t) ≡ some t) where
    written :
        (m t : String) (b : Attributes) (stack : List XmlNode) (root : Option XmlNode)
        → feed unescape (parser (node m b "" nil ∷ stack) root) (write_text escape t)
          ≡ parser (node m b t nil ∷ stack) root
    unfolding feed on_event write_text
    written m String.[] b stack root = refl
    written m (String.◌∷◌ c t) b stack root = rw (read_back (String.◌∷◌ c t), nil-append)

    pub Adds-text :
        (m u : String) (b : Attributes)
        → Adds
            (start_element escape m b ++ (write_text escape u ++ end_element escape m))
            (one (node m (read_attributes b) u nil))
    Adds-text m u b = Adds-pushed _ _ (λ n t a done stack root.
        rw
          (
            feed-append unescape (parser (node n a t done ∷ stack) root) (start_element escape m b)
                _,
            opened m b (node n a t done ∷ stack) root,
            feed-append unescape _ (write_text escape u) (end_element escape m),
            written m u (read_attributes b) (node n a t done ∷ stack) root,
          )
          (closed m n t a done stack root _))

    pub Adds-text_element :
        (m u : String) → Adds (write_text_element escape m u) (one (node m [] u nil))
    unfolding write_text_element collect
    Adds-text_element m u = Adds-text m u []

    pub Adds-text_element_with_attrs :
        (m u : String) (b : Attributes)
        → Adds (write_text_element_with_attrs escape m u b) (one (node m (read_attributes b) u nil))
    unfolding write_text_element_with_attrs write_text
    Adds-text_element_with_attrs m String.[] b = Adds-text m "" b
    Adds-text_element_with_attrs m (String.◌∷◌ c u) b = Adds-text m (String.◌∷◌ c u) b
