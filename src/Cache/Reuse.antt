-- ===== src/Cache/Reuse.antt =====
-- When a cached disk image is taken again (crates/kit/src/cache_metadata.rs).
use bcvk.Common.{String, some, true, ◌≡◌, ◌≢◌, ◌↔◌, refl, ap, sym, ◌∙◌, arith, eq_iff}
use text.Mathlib.TextLemmas.{append_inj}
use bcvk.Result.{ok}
use bcvk.Host.{Host, Machine}
use bcvk.Host.Exec.{◌>>=◌, >>=-eq-ok, queries, setxattr, with_context}
use bcvk.Host.Returns.{with_context-eq-ok}
use bcvk.Cache.{
  InstallOptions, CacheInputs, DiskImageMetadata, valid, from, inputs, compute_cache_hash, compare,
  check_cached_disk, write_to_file, cache_hash_xattr, image_digest_xattr,
}

module _ (hash_of : CacheInputs → String) {W : Type 0} (h : Host W) where
  compare-valid : (e c : String) → compare hash_of h e (some c) ≡ valid ↔ e ≡ c
  unfolding compare
  compare-valid e c = (λ v. ground (arith, eq_iff e c), λ q. ground (arith, eq_iff e c))

  check-compare :
      (path digest imgref : String) (o : InstallOptions) (s : Machine W) (cached : String)
      → h.exists path s.world ≡ true
      → h.getxattr path cache_hash_xattr s.world ≡ ok (some cached)
      → check_cached_disk hash_of h path digest imgref o s ≡ (
        ok (compare hash_of h (compute_cache_hash hash_of (from o digest imgref)) (some cached)),
        s,
      )
  unfolding check_cached_disk queries ◌>>=◌
  check-compare path digest imgref o s cached x g = rw x (rw g refl)

  inputs-inj : (m n : DiskImageMetadata) → inputs m ≡ inputs n → m ≡ n
  unfolding inputs
  inputs-inj m n e = ap restore e
    where
      restore : CacheInputs → DiskImageMetadata
      restore i = record {
        digest = i.image_digest;
        source_imgref = i.source_imgref;
        target_transport = i.target_transport;
        filesystem = i.filesystem;
        root_size = i.root_size;
        composefs_backend = i.composefs_backend;
        bootloader = i.bootloader;
        kernel_args = i.kernel_args;
        version = i.version;
      }

  hash-inputs :
      (m n : DiskImageMetadata)
      → compute_cache_hash hash_of m ≡ compute_cache_hash hash_of n
      → hash_of (inputs m) ≡ hash_of (inputs n)
  unfolding compute_cache_hash
  hash-inputs m n e = (append_inj {s₁ = "sha256:"} {s₂ = "sha256:"} e refl).1

  -- The check changes nothing.
  pub check_cached_disk-reads :
      (path digest image : String) (o : InstallOptions) (s : Machine W)
      → (check_cached_disk hash_of h path digest image o s).1 ≡ s
  unfolding check_cached_disk queries ◌>>=◌
  check_cached_disk-reads path digest image o s = ground arith

  setxattr-world :
      (file k v message : String) (s t : Machine W)
      → with_context (setxattr h file k v) message s ≡ (ok tt, t)
      → h.setxattr file k v s.world ≡ (ok tt, t.world)
  unfolding setxattr
  setxattr-world file k v message s t q =
      ap (λ p. (p.0, p.1.world)) (with_context-eq-ok (setxattr h file k v) _ s t tt q)

  -- Writing the metadata sets its two attributes.
  pub write_to_file-sets :
      (m : DiskImageMetadata) (file : String) (s t : Machine W)
      → write_to_file hash_of h m file s ≡ (ok tt, t)
      → (a : Machine W) × (h.setxattr file cache_hash_xattr (compute_cache_hash hash_of m) s.world
          ≡ (ok tt, a.world))
        × (h.setxattr file image_digest_xattr m.digest a.world ≡ (ok tt, t.world))
  unfolding write_to_file
  write_to_file-sets m file s t e =
      let (_, a, e1, f1) =
        >>=-eq-ok
          (with_context (setxattr h file cache_hash_xattr (compute_cache_hash hash_of m))
            "Failed to set cache hash xattr")
          (λ _.
            with_context (setxattr h file image_digest_xattr m.digest)
              "Failed to set image digest xattr")
          s e in
      (
        a,
        setxattr-world file _ _ "Failed to set cache hash xattr" s a e1,
        setxattr-world file _ _ "Failed to set image digest xattr" a t f1,
      )

  written :
      (m : DiskImageMetadata) (file : String) (s t : Machine W)
      → ((k v : String) (w u : W)
          → h.setxattr file k v w ≡ (ok tt, u)
          → h.getxattr file k u ≡ ok (some v))
      → ((k j v : String) (w : W)
          → k ≢ j
          → h.getxattr file k (h.setxattr file j v w).1 ≡ h.getxattr file k w)
      → write_to_file hash_of h m file s ≡ (ok tt, t)
      → h.getxattr file cache_hash_xattr t.world ≡ ok (some (compute_cache_hash hash_of m))
  written m file s t own other e =
      let (a, first, second) = write_to_file-sets m file s t e in
      let kept = other cache_hash_xattr image_digest_xattr m.digest a.world (λ p. cc) in
      ap (λ p. h.getxattr file cache_hash_xattr p.1) (sym second)
      ∙ kept
      ∙ own cache_hash_xattr (compute_cache_hash hash_of m) s.world a.world first

-- When the metadata `m` has been written to a file, a later check of the file with the same
-- attributes finds it valid exactly when `m` is the metadata of the options, the digest and the
-- reference that are asked for. What is taken for granted: an attribute that could be
-- written reads back as it was, writing another one leaves it alone, and the two texts of inputs do not collide under
-- the hash.
pub write_to_file-check :
    (hash_of : CacheInputs → String) {W : Type 0} (h : Host W) (m : DiskImageMetadata)
    (o : InstallOptions) (digest imgref file : String) (s t : Machine W)
    → ((k v : String) (w u : W)
        → h.setxattr file k v w ≡ (ok tt, u)
        → h.getxattr file k u ≡ ok (some v))
    → ((k j v : String) (w : W)
        → k ≢ j
        → h.getxattr file k (h.setxattr file j v w).1 ≡ h.getxattr file k w)
    → (hash_of (inputs (from o digest imgref)) ≡ hash_of (inputs m)
        → inputs (from o digest imgref) ≡ inputs m)
    → write_to_file hash_of h m file s ≡ (ok tt, t)
    → h.exists file t.world ≡ true
    → check_cached_disk hash_of h file digest imgref o t ≡ (ok valid, t) ↔ from o digest imgref ≡ m
write_to_file-check hash_of h m o digest imgref file s t own other free e x =
    let asked = from o digest imgref in
    let checked =
      check-compare hash_of h file digest imgref o t _ x
        (written hash_of h m file s t own other e) in
    let valid_of : check_cached_disk hash_of h file digest imgref o t ≡ (ok valid, t)
        → compare hash_of h (compute_cache_hash hash_of asked) (some (compute_cache_hash hash_of m))
          ≡ valid =
      λ v. cc in
    let same =
      compare-valid hash_of h (compute_cache_hash hash_of asked) (compute_cache_hash hash_of m) in
    (
      λ v.
          inputs-inj hash_of h asked m (free (hash-inputs hash_of h asked m (same.0 (valid_of v)))),
      λ q. checked ∙ ap (λ r. (ok r, t)) (same.1 (ap (compute_cache_hash hash_of) q)),
    )
