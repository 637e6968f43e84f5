-- ===== src/RmAll/Safety.antt =====
-- What `bcvk libvirt rm-all` (crates/kit/src/libvirt/rm_all.rs) may do to the domains it lists.
use bcvk.Common.{
  ℕ, ◌+◌, String, List, [], ◌∷◌, Option, true, false, ◌≡◌, ap, ◌∙◌, refl, arith, length, All,
  is_empty,
}
use bcvk.Result.{ok}
use bcvk.Host.{Host, Machine}
use bcvk.Host.Exec.{
  Keeps, Keeps-bind, Keeps-if, Keeps-pure, Keeps-with_context, Logged, pure, ◌>>=◌,
}
use bcvk.Domain.{IsQuery}
use bcvk.DomainList.{PodmanBootcDomain, is_running}
use bcvk.DomainList.Listing.{list_bootc_domains-queries}
use bcvk.RmAll.{LibvirtRmAllOpts, Counts, with_label, remove_running, remove_one, remove_each, run}

module _ {W : Type 0} (h : Host W) (uri : Option String) where
  run-queries :
      (opts : LibvirtRmAllOpts) → opts.force ≡ false → Keeps (Logged IsQuery) (run h uri opts)
  unfolding run
  run-queries opts f =
      Keeps-bind _ _ (Keeps-with_context _ _ (list_bootc_domains-queries h uri)) (λ ds.
        Keeps-if (is_empty (with_label opts.label ds)) _ _ (Keeps-pure tt) (rw f (Keeps-pure tt)))

  abbrev Running : PodmanBootcDomain → Type 0
  Running d = is_running d ≡ true

  remove_one-unstopped :
      (d : PodmanBootcDomain) (c : Counts) (s : Machine W)
      → Running d
      → remove_one h uri false d c s ≡ (ok (record c { errors = c.errors + 1 }), s)
  unfolding remove_one remove_running pure
  remove_one-unstopped d c s r = rw r refl

  unstopped :
      (ds : List PodmanBootcDomain) (removed errors : ℕ) (s : Machine W)
      → All Running ds
      → remove_each h uri false ds (record { removed = removed; errors = errors }) s
        ≡ (ok (record { removed = removed; errors = errors + length ds }), s)
  unfolding remove_each ◌>>=◌
  unstopped [] removed errors s r = ground arith
  unstopped (d ∷ ds) removed errors s (r, rs) =
      let first = remove_one-unstopped d (record { removed = removed; errors = errors }) s r in
      let more = unstopped ds removed (errors + 1) s rs in
      let count : errors + 1 + length ds ≡ errors + length (d ∷ ds) = omega arith in
      rw first (more ∙ ap (λ n. (ok (record { removed = removed; errors = n }), s)) count)

-- Without `--force`, `rm-all` makes no libvirt call but queries and removes no file, whatever
-- libvirt answers: every call that it adds to a log of queries is a query.
pub run-unforced :
    {W : Type 0} (h : Host W) (uri : Option String) (opts : LibvirtRmAllOpts) (s : Machine W)
    → opts.force ≡ false
    → Logged IsQuery s
    → Logged IsQuery (run h uri opts s).1
run-unforced h uri opts s f q = (run-queries h uri opts f).kept s q

-- Without `--stop`, domains that all run are left alone: nothing is called and the world stays as
-- it is, and each of them is counted as an error.
pub remove_each-unstopped :
    {W : Type 0} (h : Host W) (uri : Option String) (ds : List PodmanBootcDomain)
    (removed errors : ℕ) (s : Machine W)
    → All (λ d. is_running d ≡ true) ds
    → remove_each h uri false ds (record { removed = removed; errors = errors }) s
      ≡ (ok (record { removed = removed; errors = errors + length ds }), s)
remove_each-unstopped h uri ds removed errors s r = unstopped h uri ds removed errors s r
