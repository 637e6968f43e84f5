-- ===== src/DomainList/Names.antt =====
-- Which domains the listing gives (crates/kit/src/domain_list.rs).
use bcvk.Common.{
  String, List, [], ◌∷◌, ◌++◌, map, Option, ◌≡◌, ◌⊎◌, inl, inr, refl, sym, ap, ◌∙◌, Bool-cases,
}
use mathlib.Core.List.{map-append}
use bcvk.Result.{Result, ok, err}
use bcvk.Host.{Host, Machine}
use bcvk.Host.Exec.{pure, attempt, pure-eq-ok, attempt-bind, ◌>>=◌, >>=-eq-ok}
use bcvk.Xml.{XmlNode}
use bcvk.DomainList.{
  PodmanBootcDomain, is_podman_bootc_domain, get_domain_info_from_xml, listed, info_if_bootc,
  list_from, list_all_domains, list_bootc_domains,
}

-- some of the names, in their order
pub data IsSublist : List String → List String → Type 0 where
  done : IsSublist [] []
  keep : {n : String} {ms ns : List String} → IsSublist ms ns → IsSublist (n ∷ ms) (n ∷ ns)
  skip : {n : String} {ms ns : List String} → IsSublist ms ns → IsSublist ms (n ∷ ns)

abbrev pub names : List PodmanBootcDomain → List String
names = map (λ d. d.name)

module _ {W : Type 0} (h : Host W) (uri : Option String) where
  info-name :
      (n : String) (dom : XmlNode) (s t : Machine W) (d : PodmanBootcDomain)
      → get_domain_info_from_xml h uri n dom s ≡ (ok d, t)
      → d.name ≡ n
  unfolding get_domain_info_from_xml
  info-name n dom s t d e =
      let (state, u, _, e1) = >>=-eq-ok _ _ s e in
      let (same, _) = pure-eq-ok _ _ u t e1 in ap (λ x. x.name) (sym same)

  listed-names :
      (n : String) (r : Result PodmanBootcDomain)
      → ((d : PodmanBootcDomain) → r ≡ ok d → d.name ≡ n)
      → (names (listed h uri r []) ≡ []) ⊎ (names (listed h uri r []) ≡ n ∷ [])
  unfolding listed
  listed-names n (ok d) f = inr (ap (λ x. x ∷ []) (f d refl))
  listed-names n (err e) f = inl refl

  read_info :
      (n : String) (dom : XmlNode) (s t : Machine W) (ds : List PodmanBootcDomain)
      → (attempt (get_domain_info_from_xml h uri n dom) >>= λ info. pure (listed h uri info [])) s
        ≡ (ok ds, t)
      → (names ds ≡ []) ⊎ (names ds ≡ n ∷ [])
  read_info n dom s t ds q =
      let m = get_domain_info_from_xml h uri n dom in
      let (same, _) =
        pure-eq-ok _ _ (m s).1 t
          (sym (attempt-bind m (λ info. pure (listed h uri info [])) s) ∙ q) in
      rw (← same)
        (listed-names n (m s).0 (λ d e. info-name n dom s (m s).1 d (ap (λ r. (r, (m s).1)) e)))

  info_if_bootc-names :
      (n : String) (r : Result XmlNode) (s t : Machine W) (ds : List PodmanBootcDomain)
      → info_if_bootc h uri n r s ≡ (ok ds, t)
      → (names ds ≡ []) ⊎ (names ds ≡ n ∷ [])
  unfolding info_if_bootc
  info_if_bootc-names n (err e) s t ds q =
      let (same, _) = pure-eq-ok _ _ s t q in inl (ap names (sym same))
  info_if_bootc-names n (ok dom) s t ds q = elim (Bool-cases (is_podman_bootc_domain dom)) [
    | inl bootc ↦ read_info n dom s t ds (rw bootc at q)
    | inr other ↦ let (same, _) = pure-eq-ok _ _ s t (rw other at q) in inl (ap names (sym same))
  ]

  added :
      (n : String) (here more : List PodmanBootcDomain) (ns : List String)
      → (names here ≡ []) ⊎ (names here ≡ n ∷ [])
      → IsSublist (names more) ns
      → IsSublist (names here ++ names more) (n ∷ ns)
  added n here more ns (inl none_here) w = rw none_here (skip w)
  added n here more ns (inr one_here) w = rw one_here (keep w)

  list_from-IsSublist :
      (ns : List String) (s t : Machine W) (ds : List PodmanBootcDomain)
      → list_from h uri ns s ≡ (ok ds, t)
      → IsSublist (names ds) ns
  unfolding list_from
  list_from-IsSublist [] s t ds e = let (same, _) = pure-eq-ok _ _ s t e in rw (← same) done
  list_from-IsSublist (n ∷ ns) s t ds e =
      let (dom, s1, _, e1) = >>=-eq-ok _ _ s e in
      let (here, s2, h2, e2) = >>=-eq-ok _ _ s1 e1 in
      let (more, s3, h3, e3) = >>=-eq-ok _ _ s2 e2 in
      let (same, _) = pure-eq-ok _ _ s3 t e3 in
      let w = list_from-IsSublist ns s2 s3 more h3 in
      rw (← same) (rw map-append (added n here more ns (info_if_bootc-names n dom s1 s2 here h2) w))

-- The domains that are listed are some of those whose names libvirt gives, in its order and each at
-- most as often as it is given.
pub list_bootc_domains-IsSublist :
    {W : Type 0} (h : Host W) (uri : Option String) (s t : Machine W) (ds : List PodmanBootcDomain)
    → list_bootc_domains h uri s ≡ (ok ds, t)
    → (given : List String) × (u : Machine W) × (list_all_domains h uri s ≡ (ok given, u))
      × IsSublist (names ds) given
unfolding list_bootc_domains
list_bootc_domains-IsSublist h uri s t ds e =
    let (given, u, e1, e2) = >>=-eq-ok _ _ s e in
    (given, u, e1, list_from-IsSublist h uri given u t ds e2)
