-- ===== src/RmAll/Tally.antt =====
-- The summary of `bcvk libvirt rm-all` (crates/kit/src/libvirt/rm_all.rs).
use bcvk.Common.{
  ℕ, ◌+◌, String, List, [], ◌∷◌, Option, Bool, true, false, ◌≡◌, arith, length, inl, inr,
  Bool-cases, if◌then◌else◌,
}
use bcvk.Result.{ok}
use bcvk.Host.{Host, Machine}
use bcvk.Host.Exec.{pure, >>=-eq-ok}
use bcvk.DomainList.{PodmanBootcDomain, is_running}
use bcvk.RmAll.{Counts, remove_domain, after_destroy, remove_running, remove_one, remove_each}

abbrev total : Counts → ℕ
total c = c.removed + c.errors

module _ {W : Type 0} (h : Host W) (uri : Option String) where
  counted :
      (b : Bool) (c c' : Counts) (s t : Machine W)
      → (if b
            then pure (record c { removed = c.removed + 1 })
            else pure (record c { errors = c.errors + 1 }))
          s
        ≡ (ok c', t)
      → total c' ≡ total c + 1
  unfolding pure
  counted b c c' s t e = ground arith

  remove_domain-total :
      (d : PodmanBootcDomain) (c c' : Counts) (s t : Machine W)
      → remove_domain h uri d c s ≡ (ok c', t)
      → total c' ≡ total c + 1
  unfolding remove_domain
  remove_domain-total d c c' s t e =
      let (_, u, _, e1) = >>=-eq-ok _ _ s e in
      let (o, v, _, e2) = >>=-eq-ok _ _ u e1 in counted o.success c c' v t e2

  after_destroy-total :
      (d : PodmanBootcDomain) (c c' : Counts) (b : Bool) (s t : Machine W)
      → after_destroy h uri d c b s ≡ (ok c', t)
      → total c' ≡ total c + 1
  unfolding after_destroy pure
  after_destroy-total d c c' true s t e = remove_domain-total d c c' s t e
  after_destroy-total d c c' false s t e = ground arith

  remove_running-total :
      (stop : Bool) (d : PodmanBootcDomain) (c c' : Counts) (s t : Machine W)
      → remove_running h uri stop d c s ≡ (ok c', t)
      → total c' ≡ total c + 1
  unfolding remove_running pure
  remove_running-total true d c c' s t e =
      let (o, u, _, e1) = >>=-eq-ok _ _ s e in after_destroy-total d c c' o.success u t e1
  remove_running-total false d c c' s t e = ground arith

  remove_one-total :
      (stop : Bool) (d : PodmanBootcDomain) (c c' : Counts) (s t : Machine W)
      → remove_one h uri stop d c s ≡ (ok c', t)
      → total c' ≡ total c + 1
  unfolding remove_one
  remove_one-total stop d c c' s t e = elim (Bool-cases (is_running d)) [
    | inr stopped ↦ remove_domain-total d c c' s t (rw stopped at e)
    | inl running ↦ remove_running-total stop d c c' s t (rw running at e)
  ]

  remove_each-total :
      (stop : Bool) (ds : List PodmanBootcDomain) (c c' : Counts) (s t : Machine W)
      → remove_each h uri stop ds c s ≡ (ok c', t)
      → total c' ≡ total c + length ds
  unfolding remove_each pure
  remove_each-total stop [] c c' s t e = ground arith
  remove_each-total stop (d ∷ ds) c c' s t e =
      let (m, u, e1, e2) = >>=-eq-ok _ _ s e in
      let first = remove_one-total stop d c m s u e1 in
      let more = remove_each-total stop ds m c' u t e2 in omega (arith, first, more)

-- When the loop of `rm-all` comes to its end, every listed domain has been counted once, as removed
-- or as an error.
pub remove_each-counts :
    {W : Type 0} (h : Host W) (uri : Option String) (stop : Bool) (ds : List PodmanBootcDomain)
    (c : Counts) (s t : Machine W)
    → remove_each h uri stop ds (record { removed = 0; errors = 0 }) s ≡ (ok c, t)
    → c.removed + c.errors ≡ length ds
remove_each-counts h uri stop ds c s t e =
    let all = remove_each-total h uri stop ds (record { removed = 0; errors = 0 }) c s t e in
    omega (arith, all)
