-- ===== src/ToDisk/Again.antt =====
-- A second run of crates/kit/src/to_disk.rs for the same options.
use bcvk.Common.{String, true, false, some, ◌≡◌, ◌≢◌, refl, sym, ap, ◌∙◌, ◌⊎◌, inl, inr}
use bcvk.Result.{Result, ok, err}
use bcvk.Host.{Machine}
use bcvk.Host.Exec.{queries, with_context, ◌>>=◌, >>=-eq-ok}
use bcvk.Host.Returns.{with_context-eq-ok}
use bcvk.Cache.{CacheInputs, valid, check_cached_disk, from, inputs, write_to_file}
use bcvk.Cache.Reuse.{write_to_file-check, write_to_file-sets}
use bcvk.ToDisk.{ToDiskOpts, ToDiskHost, RunOutcome, ImageInspect}
use bcvk.ToDisk.Command.{
  normalized, inspect, check_existing, reused, regenerate, write_disk_metadata, run,
}
use bcvk.ToDisk.Outcome.{Installed, run-Installed}

module _ {W : Type 0} (t : ToDiskHost W) (hash_of : CacheInputs → String) (opts : ToDiskOpts) where
  check_existing-reuses :
      (i : ImageInspect) (s : Machine W)
      → t.inspect opts.source_image s.world ≡ ok i
      → t.host.exists opts.target_disk s.world ≡ true
      → check_cached_disk hash_of t.host opts.target_disk i.digest opts.source_image opts.install s
        ≡ (ok valid, s)
      → opts.additional.dry_run ≡ false
      → check_existing t hash_of opts s ≡ (ok (some RunOutcome.cached), s)
  unfolding check_existing reused inspect ◌>>=◌
  check_existing-reuses i s inspects there checked wet =
      rw there (rw inspects (rw checked (rw wet refl)))

  written :
      (u v : Machine W)
      → write_disk_metadata t hash_of opts u ≡ (ok tt, v)
      → (j : ImageInspect) × (t.inspect opts.source_image u.world ≡ ok j)
        × (x : Machine W) × (u ≡ x)
        × (write_to_file hash_of t.host
              (from opts.install j.digest opts.source_image)
              opts.target_disk
              x
            ≡ (ok tt, v))
  unfolding write_disk_metadata inspect queries with_context
  written u v h =
      let (j, a, e, h1) = >>=-eq-ok (inspect t opts.source_image) _ u h in
      let (_, b, f, h2) =
        >>=-eq-ok (with_context (queries t.host (t.open_write opts.target_disk)) _) _ a h1 in
      (
        j,
        ap (λ p. p.0) e,
        b,
        ap (λ p. p.1) e ∙ ap (λ p. p.1) f,
        with_context-eq-ok
            (write_to_file hash_of t.host (from opts.install j.digest opts.source_image)
              opts.target_disk)
            _ b v tt h2,
      )

  -- Setting an attribute of the disk does not change the image.
  abbrev pub IsImageKept : Type 0
  IsImageKept =
      (k x : String) (w : W)
      → t.inspect opts.source_image (t.host.setxattr opts.target_disk k x w).1
        ≡ t.inspect opts.source_image w

  inspected_after :
      (digest : String) (x v : Machine W)
      → IsImageKept
      → write_to_file hash_of t.host (from opts.install digest opts.source_image) opts.target_disk x
        ≡ (ok tt, v)
      → t.inspect opts.source_image v.world ≡ t.inspect opts.source_image x.world
  inspected_after digest x v kept e =
      let (a, first, second) = write_to_file-sets hash_of t.host _ opts.target_disk x v e in
      ap (λ p. t.inspect opts.source_image p.1) (sym second)
      ∙ kept _ _ a.world
      ∙ ap (λ p. t.inspect opts.source_image p.1) (sym first)
      ∙ kept _ _ x.world

  -- The image is the one that the metadata is of.
  pub write_disk_metadata-image :
      (u v : Machine W)
      → IsImageKept
      → write_disk_metadata t hash_of opts u ≡ (ok tt, v)
      → (j : ImageInspect) × (t.inspect opts.source_image v.world ≡ ok j)
  write_disk_metadata-image u v kept done =
      let (j, before, x, same, e) = written u v done in
      (
        j,
        inspected_after j.digest x v kept e
            ∙ ap (λ (m : Machine W). t.inspect opts.source_image m.world) (sym same)
            ∙ before,
      )

  -- The metadata that has been written is found valid.
  pub write_disk_metadata-valid :
      (i : ImageInspect) (u v : Machine W)
      → IsImageKept
      → t.inspect opts.source_image v.world ≡ ok i
      → ((k x : String) (w w' : W)
          → t.host.setxattr opts.target_disk k x w ≡ (ok tt, w')
          → t.host.getxattr opts.target_disk k w' ≡ ok (some x))
      → ((k j x : String) (w : W)
          → k ≢ j
          → t.host.getxattr opts.target_disk k (t.host.setxattr opts.target_disk j x w).1
            ≡ t.host.getxattr opts.target_disk k w)
      → write_disk_metadata t hash_of opts u ≡ (ok tt, v)
      → t.host.exists opts.target_disk v.world ≡ true
      → check_cached_disk hash_of t.host opts.target_disk i.digest opts.source_image opts.install v
        ≡ (ok valid, v)
  write_disk_metadata-valid i u v kept inspected own other done there =
      let (j, before, x, same, e) = written u v done in
      let at_end =
        inspected_after j.digest x v kept e
        ∙ ap (λ (m : Machine W). t.inspect opts.source_image m.world) (sym same)
        ∙ before in
      let image : i ≡ j = cc in
      (write_to_file-check hash_of t.host (from opts.install j.digest opts.source_image)
          opts.install i.digest opts.source_image opts.target_disk x v own other
          (λ _. ap (λ k. inputs (from opts.install k.digest opts.source_image)) image) e there).1
        (ap (λ k. from opts.install k.digest opts.source_image) image)

-- The run has installed to the disk, and could not write the metadata on it.
pub record Unwritten {W : Type 0} (t : ToDiskHost W) (hash_of : CacheInputs → String)
    (opts : ToDiskOpts) (v : Machine W) : Type 0 where
  pub installed : Machine W
  pub is_installed : Installed t hash_of opts installed
  pub error : String
  pub failed : write_disk_metadata t hash_of opts installed ≡ (err error, v)

pub Unwritten-cases :
    {W : Type 0} (t : ToDiskHost W) (hash_of : CacheInputs → String) (opts : ToDiskOpts)
    (u v : Machine W)
    → Installed t hash_of opts u
    → (write_disk_metadata t hash_of opts u).1 ≡ v
    → Unwritten t hash_of opts v ⊎ (write_disk_metadata t hash_of opts u ≡ (ok tt, v))
Unwritten-cases t hash_of opts u v here after =
    go (write_disk_metadata t hash_of opts u).0
      (λ i. ((write_disk_metadata t hash_of opts u).0, after i))
  where
    go :
        (r : Result (Unit {0}))
        → write_disk_metadata t hash_of opts u ≡ (r, v)
        → Unwritten t hash_of opts v ⊎ (write_disk_metadata t hash_of opts u ≡ (ok tt, v))
    go (ok _) e = inr e
    go (err x) e = inl (record { installed = u; is_installed = here; error = x; failed = e })

-- After a run that has created a disk, either the metadata could not be written on the disk, which
-- the run passes over, or a run with the same options finds the disk cached and changes nothing,
-- whatever the first run started from. The disk is there, and it is no dry run. What is taken for
-- granted: an attribute that could be set reads back as it was set, and setting one leaves the
-- others and the image alone.
pub run-again :
    {W : Type 0} (t : ToDiskHost W) (hash_of : CacheInputs → String) (opts : ToDiskOpts)
    (s v : Machine W)
    → IsImageKept t hash_of (normalized opts)
    → ((k x : String) (w w' : W)
        → t.host.setxattr opts.target_disk k x w ≡ (ok tt, w')
        → t.host.getxattr opts.target_disk k w' ≡ ok (some x))
    → ((k j x : String) (w : W)
        → k ≢ j
        → t.host.getxattr opts.target_disk k (t.host.setxattr opts.target_disk j x w).1
          ≡ t.host.getxattr opts.target_disk k w)
    → t.host.exists opts.target_disk v.world ≡ true
    → opts.additional.dry_run ≡ false
    → run t hash_of opts s ≡ (ok RunOutcome.created, v)
    → Unwritten t hash_of (normalized opts) v ⊎ (run t hash_of opts v ≡ (ok RunOutcome.cached, v))
unfolding run normalized regenerate ◌>>=◌
run-again t hash_of opts s v kept own other there wet h =
    let (u, here, after) = run-Installed t hash_of opts s v h in
    elim (Unwritten-cases t hash_of (normalized opts) u v here after) [
      | inl failed ↦ inl failed
      | inr done ↦
          let (i, inspected) =
            write_disk_metadata-image t hash_of (normalized opts) u v kept done in
          let checked =
            write_disk_metadata-valid t hash_of (normalized opts) i u v kept inspected own other
              done there in
          let found =
            check_existing-reuses t hash_of (normalized opts) i v inspected there checked wet in
          inr (rw found refl)
    ]
