-- ===== src/Xml/Find.antt =====
-- `XmlNode::find` (crates/kit/src/xml_utils.rs) against the elements of a tree.
use bcvk.Common.{
  String, ◌≡◌, refl, ◌≢◌, ◌⊎◌, inl, inr, ◌==◌, eq_iff, Bool-cases, Option, none, some, arith,
  or_else, format, [], ◌∷◌,
}
use bcvk.Xml.{
  Attributes, XmlNode, node, Children, nil, cons, name, find, find_children, find_with_namespace,
}

-- `m` is the element, or stands somewhere below it.
mutual
  pub data IsWithin (m : XmlNode) : XmlNode → Type 0 where
    here : IsWithin m m
    below : {n t : String} {a : Attributes} {c : Children} → IsAmong m c → IsWithin m (node n a t c)

  pub data IsAmong (m : XmlNode) : Children → Type 0 where
    first : {n : XmlNode} {c : Children} → IsWithin m n → IsAmong m (cons n c)
    later : {n : XmlNode} {c : Children} → IsAmong m c → IsAmong m (cons n c)

or_else-eq-some {ℓ} :
    {A : Type ℓ} {x : A} (o d : Option A)
    → or_else o d ≡ some x
    → (o ≡ some x) ⊎ ((o ≡ none) × (d ≡ some x))
or_else-eq-some none d h = inr (refl, h)
or_else-eq-some (some y) d h = inl h

mutual
  unfolding find

  find-found : (e : String) (n m : XmlNode) → find e n ≡ some m → IsWithin m n × (name m ≡ e)
  find-found e (node n a t c) m h = elim (Bool-cases (n == e)) [
    | inl same ↦ let q : node n a t c ≡ m = ground arith in rw (← q) (here, (eq_iff n e).0 same)
    | inr other ↦ let (w, s) = find_children-found e c m (ground arith) in (below w, s)
  ]

  find_children-found :
      (e : String) (c : Children) (m : XmlNode)
      → find_children e c ≡ some m
      → IsAmong m c × (name m ≡ e)
  find_children-found e nil m h = cc
  find_children-found e (cons n rest) m h =
      elim (or_else-eq-some (find e n) (find_children e rest) h) [
        | inl p ↦ let (w, s) = find-found e n m p in (first w, s)
        | inr q ↦ let (w, s) = find_children-found e rest m q.1 in (later w, s)
      ]

mutual
  unfolding find

  find-missing : (e : String) (n m : XmlNode) → find e n ≡ none → IsWithin m n → name m ≢ e
  find-missing e (node n a t c) m h here = λ p. ground (arith, eq_iff n e)
  find-missing e (node n a t c) m h (below w) = find_children-missing e c m (ground arith) w

  find_children-missing :
      (e : String) (c : Children) (m : XmlNode)
      → find_children e c ≡ none
      → IsAmong m c
      → name m ≢ e
  find_children-missing e nil m h w = elim w [ ]
  find_children-missing e (cons n rest) m h (first w) = find-missing e n m (ground arith) w
  find_children-missing e (cons n rest) m h (later w) =
      find_children-missing e rest m (ground arith) w

-- What `find` returns is an element of the tree with that name.
pub find-eq-some : (e : String) (n m : XmlNode) → find e n ≡ some m → IsWithin m n × (name m ≡ e)
find-eq-some e n m h = find-found e n m h

-- Where `find` returns none, no element of the tree has that name.
pub find-eq-none : (e : String) (n m : XmlNode) → find e n ≡ none → IsWithin m n → name m ≢ e
find-eq-none e n m h w = find-missing e n m h w

-- What `find_with_namespace` returns is an element of the tree. Its name is the namespaced one, or
-- it is the plain one and the tree holds no element with the namespaced name.
pub find_with_namespace-eq-some :
    (e : String) (n m : XmlNode)
    → find_with_namespace e n ≡ some m
    → IsWithin m n
      × ((name m ≡ format ("bootc:" ∷ e ∷ []))
          ⊎ ((name m ≡ e) × (find (format ("bootc:" ∷ e ∷ [])) n ≡ none)))
unfolding find_with_namespace
find_with_namespace-eq-some e n m h =
    elim (or_else-eq-some (find (format ("bootc:" ∷ e ∷ [])) n) (find e n) h) [
      | inl p ↦ let (w, s) = find-found (format ("bootc:" ∷ e ∷ [])) n m p in (w, inl s)
      | inr q ↦ let (w, s) = find-found e n m q.1 in (w, inr (s, q.0))
    ]
