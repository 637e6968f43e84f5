-- ===== src/ToDisk/DryRun.antt =====
-- What a dry run of crates/kit/src/to_disk.rs says, and what the run would do.
use bcvk.Common.{
  String, Bool, true, false, Option, none, some, ◌≡◌, ◌≢◌, ◌↔◌, sym, ◌∙◌, inl, inr, refl, ap,
  Bool-cases, if◌then◌else◌,
}
use bcvk.Result.{Result, ok, err, context}
use bcvk.Host.{Machine}
use bcvk.Host.Exec.{pure, continue, ◌>>=◌}
use bcvk.Host.Returns.{Returns, Returns-bind, Returns-pure, Returns-fail}
use bcvk.Cache.{CacheInputs, Validation, valid, invalid, check_cached_disk}
use bcvk.Cache.Reuse.{check_cached_disk-reads}
use bcvk.ToDisk.{ToDiskOpts, ToDiskHost, RunOutcome, ImageInspect}
use bcvk.ToDisk.Command.{
  normalized, inspect, settled, install_in, create, reused, check_existing, regenerate, run,
}

abbrev pub with_dry_run : Bool → ToDiskOpts → ToDiskOpts
with_dry_run b opts = record opts { additional = record opts.additional { dry_run = b } }

module _ {W : Type 0} (t : ToDiskHost W) (hash_of : CacheInputs → String) where
  abbrev pub Created : RunOutcome → Type 0
  Created a = a ≡ RunOutcome.created

  settled-Created :
      (opts : ToDiskOpts) (r : Result (Unit {0})) → Returns Created (settled t hash_of opts r)
  unfolding settled
  settled-Created opts (ok _) = Returns-bind _ _ (λ _. Returns-pure RunOutcome.created refl)
  settled-Created opts (err e) = Returns-bind _ _ (λ _. Returns-fail e)

  -- A creation returns nothing else.
  pub create-Created : (opts : ToDiskOpts) → Returns Created (create t hash_of opts)
  unfolding create install_in
  create-Created opts = Returns-bind _ _ (λ _. Returns-bind _ _ (λ size. Returns-bind _ _ (λ _.
      Returns-bind _ _ (λ command. Returns-bind _ _ (λ units.
        Returns-bind _ _
          (λ id. Returns-bind _ _ (λ r. Returns-bind _ _ (λ _. settled-Created opts r))))))))

  -- The search for a cached disk fails whether the run is dry or not, or finds a disk, or finds none.
  -- Only a run that is not dry may change something then, and it returns no outcome.
  data Found (opts : ToDiskOpts) (s : Machine W) : Type 0 where
    failed :
        (e : String)
        → ((b : Bool) → check_existing t hash_of (with_dry_run b opts) s ≡ (err e, s))
        → Found opts s
    reusable :
        ((b : Bool)
          → check_existing t hash_of (with_dry_run b opts) s
            ≡ (ok (some (if b then RunOutcome.dry_run_would_reuse else RunOutcome.cached)), s))
        → Found opts s
    none_found :
        check_existing t hash_of (with_dry_run true opts) s ≡ (ok none, s)
        → ((a : RunOutcome)
            → (check_existing t hash_of (with_dry_run false opts) s).0 ≢ ok (some a))
        → Found opts s

  removed-none :
      (r : Result (Unit {0})) (message : String) (u : Machine W) (a : RunOutcome)
      → (continue (context r message) (λ _. pure {W = W} {A = Option RunOutcome} none) u).0
        ≢ ok (some a)
  unfolding pure
  removed-none (ok _) message u a q = cc
  removed-none (err e) message u a q = cc

  reused-Found :
      (opts : ToDiskOpts) (s : Machine W) (r : Result Validation)
      → ((b : Bool)
          → check_existing t hash_of (with_dry_run b opts) s
            ≡ continue r (reused t hash_of (with_dry_run b opts)) s)
      → Found opts s
  unfolding reused pure ◌>>=◌
  reused-Found opts s (ok valid) h = reusable (λ b. h b)
  reused-Found opts s (ok (invalid e)) h =
      none_found (h true) (λ a q. removed-none _ _ _ a (sym (ap (λ p. p.0) (h false)) ∙ q))
  reused-Found opts s (err e) h = failed e h

  inspected-Found :
      (opts : ToDiskOpts) (s : Machine W) (r : Result ImageInspect)
      → ((b : Bool)
          → check_existing t hash_of (with_dry_run b opts) s
            ≡ continue r
                (λ i.
                  check_cached_disk hash_of t.host opts.target_disk i.digest opts.source_image
                    opts.install
                  >>= reused t hash_of (with_dry_run b opts))
                s)
      → Found opts s
  unfolding ◌>>=◌
  inspected-Found opts s (ok i) h =
      let (checked, u) =
        check_cached_disk hash_of t.host opts.target_disk i.digest opts.source_image opts.install
          s in
      let same : u ≡ s =
        check_cached_disk-reads hash_of t.host opts.target_disk i.digest opts.source_image
          opts.install s in
      reused-Found opts s checked
        (λ b. h b ∙ ap (λ v. continue checked (reused t hash_of (with_dry_run b opts)) v) same)
  inspected-Found opts s (err e) h = failed e h

  check_existing-Found : (opts : ToDiskOpts) (s : Machine W) → Found opts s
  unfolding check_existing inspect ◌>>=◌
  check_existing-Found opts s = elim (Bool-cases (t.host.exists opts.target_disk s.world)) [
    | inl x ↦ inspected-Found opts s (t.inspect opts.source_image s.world) (λ b. rw x refl)
    | inr x ↦
        none_found (rw x refl) (λ a q. let no : Result.ok none ≡ ok (some a) = rw x at q in cc)
  ]

  decided :
      (opts : ToDiskOpts) (s : Machine W) (b : Bool)
      → b ≡ false
      → ((if b then pure RunOutcome.dry_run_would_regenerate else create t hash_of opts) s).0
        ≢ ok RunOutcome.cached
  decided opts s true wet q = cc
  decided opts s false wet q =
      let no : RunOutcome.cached ≡ RunOutcome.created =
        (create-Created opts).returned s RunOutcome.cached _
          (λ i. (q i, (create t hash_of opts s).1)) in
      cc

  -- what follows a search that has failed or found nothing
  regenerated-uncached :
      (opts : ToDiskOpts) (r : Result (Option RunOutcome)) (s : Machine W)
      → opts.additional.dry_run ≡ false
      → ((a : RunOutcome) → r ≢ ok (some a))
      → (continue r (regenerate t hash_of opts) s).0 ≢ ok RunOutcome.cached
  unfolding regenerate
  regenerated-uncached opts (ok none) s wet n q = decided opts s opts.additional.dry_run wet q
  regenerated-uncached opts (ok (some a)) s wet n q = absurd (n a refl)
  regenerated-uncached opts (err e) s wet n q = cc

no_outcome : (e : String) (a : RunOutcome) → ◌≢◌ {A = Result RunOutcome} (err e) (ok a)
no_outcome e a q = cc

-- A dry run changes nothing and makes no call, whether it returns or fails. It says that the disk
-- would be reused exactly when the run with the same options, but not dry, finds the disk cached.
pub run-dry :
    {W : Type 0} (t : ToDiskHost W) (hash_of : CacheInputs → String) (opts : ToDiskOpts)
    (s : Machine W)
    → ((run t hash_of (with_dry_run true opts) s).1 ≡ s)
      × ((run t hash_of (with_dry_run true opts) s).0 ≡ ok RunOutcome.dry_run_would_reuse
          ↔ (run t hash_of (with_dry_run false opts) s).0 ≡ ok RunOutcome.cached)
unfolding run normalized regenerate pure ◌>>=◌
run-dry t hash_of opts s = elim (check_existing-Found t hash_of (normalized opts) s) [
  | failed e h ↦
      let dry = h true in
      let wet = h false in
      (
        rw dry refl,
        (
          (λ q. absurd (no_outcome e RunOutcome.dry_run_would_reuse (rw dry at q))),
          (λ q. absurd (no_outcome e RunOutcome.cached (rw wet at q))),
        ),
      )
  | reusable h ↦
      let dry = h true in
      let wet = h false in (rw dry refl, ((λ q. rw wet refl), (λ q. rw dry refl)))
  | none_found dry n ↦ (
    rw dry refl,
    (
      (λ q.
          let no : Result.ok RunOutcome.dry_run_would_regenerate
              ≡ ok RunOutcome.dry_run_would_reuse =
            rw dry at q in
          cc),
      λ q.
          absurd
            (regenerated-uncached t hash_of (with_dry_run false (normalized opts)) _ _ refl n q),
    ),
  )
]
