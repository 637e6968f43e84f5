-- ===== src/BaseDisk/Create.antt =====
-- When a base disk is used or made (crates/kit/src/libvirt/base_disks.rs).
use bcvk.Common.{String, [], ◌∷◌, Option, true, false, ◌≡◌, ◌≢◌, ◌⊎◌, inl, inr, refl, format}
use bcvk.Common.Text.Paths.{file_stem, parent}
use bcvk.Result.{Result, ok, err, is_ok}
use bcvk.Host.{Host, Machine, Action}
use bcvk.Host.Exec.{Exec, fail, remove_file, create_temp, ◌>>=◌}
use bcvk.Cache.{
  ValidationError, InstallOptions, CacheInputs, Validation, valid, invalid, check_cached_disk,
}
use bcvk.Cache.Reuse.{check_cached_disk-reads}
use bcvk.Pool.{quoted}
use bcvk.BaseDisk.{
  to_disk_opts, drop_temp, keep_if_valid, install_checked, create_base_disk, reuse_or_recreate,
  find_or_create_at,
}
use bcvk.ToDisk.{ToDiskOpts}

module _ {W : Type 0} (h : Host W) (hash_of : CacheInputs → String) (uri : Option String)
    (to_disk : ToDiskOpts → Exec W (Unit {0})) where
  drop_temp-fails :
      (temp e : String) (s t : Machine W)
      → drop_temp h hash_of uri to_disk temp (fail e) s ≢ (ok tt, t)
  unfolding drop_temp ◌>>=◌
  drop_temp-fails temp e s t q = cc

  keep_if_valid-ok :
      (temp path : String) (r : Result Validation) (s t : Machine W)
      → keep_if_valid h hash_of uri to_disk temp path r s ≡ (ok tt, t)
      → r ≡ ok valid
  unfolding keep_if_valid
  keep_if_valid-ok temp path (ok valid) s t q = refl
  keep_if_valid-ok temp path (ok (invalid e)) s t q = absurd (drop_temp-fails temp _ s t q)
  keep_if_valid-ok temp path (err e) s t q = absurd (drop_temp-fails temp _ s t q)

  install_checked-ok :
      (temp path image digest : String) (o : InstallOptions) (r : Result (Unit {0}))
      (s t : Machine W)
      → install_checked h hash_of uri to_disk temp path image digest o r s ≡ (ok tt, t)
      → (r ≡ ok tt) × ((check_cached_disk hash_of h temp digest image o s).0 ≡ ok valid)
  unfolding install_checked ◌>>=◌
  install_checked-ok temp path image digest o (err e) s t q = absurd (drop_temp-fails temp _ s t q)
  install_checked-ok temp path image digest o (ok u) s t q = (
    refl,
    keep_if_valid-ok temp path (check_cached_disk hash_of h temp digest image o s).0
        (check_cached_disk hash_of h temp digest image o s).1 t q,
  )

  -- a failure, after which the temporary file's removal is the newest call
  abbrev pub Discarded : String → Machine W → Result (Unit {0}) × Machine W → Type 0
  Discarded temp s (r, t) = (is_ok r ≡ false) × (t.log ≡ Action.remove_file temp ∷ s.log)

  drop_temp-Discarded :
      (temp e : String) (s : Machine W)
      → Discarded temp s (drop_temp h hash_of uri to_disk temp (fail e) s)
  unfolding drop_temp remove_file ◌>>=◌
  drop_temp-Discarded temp e s = (refl, refl)

  keep_if_valid-Discarded :
      (temp path : String) (r : Result Validation) (s : Machine W)
      → r ≢ ok valid
      → Discarded temp s (keep_if_valid h hash_of uri to_disk temp path r s)
  unfolding keep_if_valid
  keep_if_valid-Discarded temp path (ok valid) s n = absurd (n refl)
  keep_if_valid-Discarded temp path (ok (invalid e)) s n = drop_temp-Discarded temp _ s
  keep_if_valid-Discarded temp path (err e) s n = drop_temp-Discarded temp _ s

  install_checked-Discarded :
      (temp path image digest : String) (o : InstallOptions) (r : Result (Unit {0})) (s : Machine W)
      → (r ≢ ok tt) ⊎ ((check_cached_disk hash_of h temp digest image o s).0 ≢ ok valid)
      → Discarded temp s (install_checked h hash_of uri to_disk temp path image digest o r s)
  unfolding install_checked remove_file ◌>>=◌
  install_checked-Discarded temp path image digest o (err e) s n = (refl, refl)
  install_checked-Discarded temp path image digest o (ok u) s (inl n) = absurd (n refl)
  install_checked-Discarded temp path image digest o (ok u) s (inr n) =
      let same = check_cached_disk-reads hash_of h temp digest image o s in
      rw same (
        keep_if_valid-Discarded temp path (check_cached_disk hash_of h temp digest image o s).0 s n)

-- The creation of a base disk returns without an error only where the installation to the
-- temporary file did, and the metadata found on that file then is that of the request.
pub create_base_disk-validated :
    {W : Type 0} (h : Host W) (hash_of : CacheInputs → String) (uri : Option String)
    (to_disk : ToDiskOpts → Exec W (Unit {0})) (path image digest temp : String)
    (o : InstallOptions) (virtiofsd : Option String) (s s1 s2 t : Machine W) (r : Result (Unit {0}))
    → create_temp h (format (file_stem path ∷ "." ∷ [])) ".tmp.qcow2" (parent path) s
      ≡ (ok temp, s1)
    → to_disk (to_disk_opts image temp o virtiofsd) s1 ≡ (r, s2)
    → create_base_disk h hash_of uri to_disk path image digest o virtiofsd s ≡ (ok tt, t)
    → (r ≡ ok tt) × ((check_cached_disk hash_of h temp digest image o s2).0 ≡ ok valid)
unfolding create_base_disk ◌>>=◌
create_base_disk-validated h hash_of uri to_disk path image digest temp o virtiofsd s s1 s2 t r e1
      e2 q =
    install_checked-ok h hash_of uri to_disk temp path image digest o r s2 t (rw e2 at (rw e1 at q))

-- Where the installation fails, or the metadata on the temporary file is not that of the request,
-- the creation removes the temporary file and fails, and persists nothing: the removal is the only
-- call after the installation.
pub create_base_disk-discards :
    {W : Type 0} (h : Host W) (hash_of : CacheInputs → String) (uri : Option String)
    (to_disk : ToDiskOpts → Exec W (Unit {0})) (path image digest temp : String)
    (o : InstallOptions) (virtiofsd : Option String) (s s1 s2 : Machine W) (r : Result (Unit {0}))
    → create_temp h (format (file_stem path ∷ "." ∷ [])) ".tmp.qcow2" (parent path) s
      ≡ (ok temp, s1)
    → to_disk (to_disk_opts image temp o virtiofsd) s1 ≡ (r, s2)
    → (r ≢ ok tt) ⊎ ((check_cached_disk hash_of h temp digest image o s2).0 ≢ ok valid)
    → Discarded h hash_of uri to_disk temp s2
        (create_base_disk h hash_of uri to_disk path image digest o virtiofsd s)
unfolding create_base_disk ◌>>=◌
create_base_disk-discards h hash_of uri to_disk path image digest temp o virtiofsd s s1 s2 r e1 e2
      n =
    rw e1 (rw e2 (install_checked-Discarded h hash_of uri to_disk temp path image digest o r s2 n))

-- A base disk that is there, with the metadata of the request, is used as it is: no call is made
-- and the world stays as it is.
pub find_or_create_at-reuses :
    {W : Type 0} (h : Host W) (hash_of : CacheInputs → String) (uri : Option String)
    (to_disk : ToDiskOpts → Exec W (Unit {0})) (path image digest : String) (o : InstallOptions)
    (virtiofsd : Option String) (s : Machine W)
    → h.exists path s.world ≡ true
    → check_cached_disk hash_of h path digest image o s ≡ (ok valid, s)
    → find_or_create_at h hash_of uri to_disk path image digest o virtiofsd s ≡ (ok path, s)
unfolding find_or_create_at reuse_or_recreate ◌>>=◌
find_or_create_at-reuses h hash_of uri to_disk path image digest o virtiofsd s x v =
    rw x (rw v refl)

-- A base disk that is there with other metadata than the request's is removed before a new one is
-- made: where it cannot be removed, the command fails and the attempt is its only call.
pub find_or_create_at-stale :
    {W : Type 0} (h : Host W) (hash_of : CacheInputs → String) (uri : Option String)
    (to_disk : ToDiskOpts → Exec W (Unit {0})) (path image digest x : String) (o : InstallOptions)
    (virtiofsd : Option String) (e : ValidationError) (s : Machine W)
    → h.exists path s.world ≡ true
    → check_cached_disk hash_of h path digest image o s ≡ (ok (invalid e), s)
    → (h.remove_file path s.world).0 ≡ err x
    → find_or_create_at h hash_of uri to_disk path image digest o virtiofsd s ≡ (
      err (format ("Failed to remove stale base disk: " ∷ quoted path ∷ [])),
      record { world = (h.remove_file path s.world).1; log = Action.remove_file path ∷ s.log },
    )
unfolding find_or_create_at reuse_or_recreate remove_file ◌>>=◌
find_or_create_at-stale h hash_of uri to_disk path image digest x o virtiofsd e s there v r =
    rw there (rw v (rw r refl))
