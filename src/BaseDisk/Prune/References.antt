-- ===== src/BaseDisk/Prune/References.antt =====
-- Which disks refer to a base disk (crates/kit/src/libvirt/base_disks.rs): the cautious check before
-- a removal and the count that is listed.
use bcvk.Common.{
  ℕ, ◌≤◌, suc, String, List, [], ◌∷◌, false, ◌≡◌, ◌↔◌, refl, arith, All, inl, inr, Bool-cases,
  Option, none, some, contains,
}
use bcvk.Result.{Result, ok, err}
use bcvk.Host.{Host, QemuImgInfo}
use bcvk.BaseDisk.Prune.{
  backed_by, names_base, counted, refers, count_base_disk_references, check_base_disk_referenced,
}

-- a backing file, if any, has a name that does not contain the base disk's
abbrev pub IsElsewhere : String → Option String → Type 0
IsElsewhere base none = Unit
IsElsewhere base (some backing_file) = contains base backing_file ≡ false

module _ {W : Type 0} (h : Host W) (base : String) (w : W) where
  -- the disk can be read, and neither of its backing file names contains `base`
  abbrev pub IsFree : String → Type 0
  IsFree disk =
      (info : QemuImgInfo) × (h.image_info disk w ≡ ok info)
      × IsElsewhere base info.backing_filename
      × IsElsewhere base info.full_backing_filename

  -- the disk can be read
  abbrev pub IsReadable : String → Type 0
  IsReadable disk = (info : QemuImgInfo) × h.image_info disk w ≡ ok info

  names_base-false : (o : Option String) → names_base base o ≡ false → IsElsewhere base o
  unfolding names_base
  names_base-false none e = tt
  names_base-false (some b) e = e

  names_base-IsElsewhere : (o : Option String) → IsElsewhere base o → names_base base o ≡ false
  unfolding names_base
  names_base-IsElsewhere none e = refl
  names_base-IsElsewhere (some b) e = e

  elsewhere :
      (info : QemuImgInfo)
      → backed_by base info ≡ false
      → IsElsewhere base info.backing_filename × IsElsewhere base info.full_backing_filename
  unfolding backed_by
  elsewhere info e = (
    names_base-false info.backing_filename (ground arith),
    names_base-false info.full_backing_filename (ground arith),
  )

  not_backed :
      (info : QemuImgInfo)
      → IsElsewhere base info.backing_filename
      → IsElsewhere base info.full_backing_filename
      → backed_by base info ≡ false
  unfolding backed_by
  not_backed info b f =
      let b' = names_base-IsElsewhere info.backing_filename b in
      let f' = names_base-IsElsewhere info.full_backing_filename f in ground arith

  free :
      (disk : String) (r : Result QemuImgInfo)
      → h.image_info disk w ≡ r
      → refers h base r ≡ false
      → IsFree disk
  unfolding refers
  free disk (ok info) e f = let (b, c) = elsewhere info f in (info, e, b, c)
  free disk (err x) e f = ground arith

  pub check-IsFree :
      (disks : List String) → check_base_disk_referenced h base disks w ≡ false → All IsFree disks
  unfolding check_base_disk_referenced
  check-IsFree [] e = tt
  check-IsFree (d ∷ ds) e =
      (free d (h.image_info d w) refl (ground arith), check-IsFree ds (ground arith))

  IsFree-check :
      (disks : List String) → All IsFree disks → check_base_disk_referenced h base disks w ≡ false
  unfolding check_base_disk_referenced refers
  IsFree-check [] f = refl
  IsFree-check (d ∷ ds) ((info, e, b, c), f) = rw e (rw (not_backed info b c) (IsFree-check ds f))

  count-grows : (disks : List String) (n : ℕ) → n ≤ count_base_disk_references h base disks w n
  unfolding count_base_disk_references counted
  count-grows [] n = omega arith
  count-grows (d ∷ ds) n =
      let more = count-grows ds (counted h base (h.image_info d w) n) in ground arith

  count-free :
      (disks : List String) (n : ℕ)
      → All IsFree disks
      → count_base_disk_references h base disks w n ≡ n
  unfolding count_base_disk_references counted
  count-free [] n f = refl
  count-free (d ∷ ds) n ((info, e, b, c), f) = rw e (rw (not_backed info b c) (count-free ds n f))

  count-none :
      (disks : List String) (n : ℕ)
      → All IsReadable disks
      → count_base_disk_references h base disks w n ≡ n
      → All IsFree disks
  unfolding count_base_disk_references counted
  count-none [] n r e = tt
  count-none (d ∷ ds) n ((info, i), r) e = elim (Bool-cases (backed_by base info)) [
    | inl b ↦ let more = count-grows ds (suc n) in ground arith
    | inr f ↦
        let (b, c) = elsewhere info f in ((info, i, b, c), count-none ds n r (rw f at (rw i at e)))
  ]

-- The check before a removal says that a base disk is not referred to exactly when every disk can
-- be read and neither of its backing file names contains the base disk's name.
pub check_base_disk_referenced-false :
    {W : Type 0} (h : Host W) (base : String) (disks : List String) (w : W)
    → check_base_disk_referenced h base disks w ≡ false ↔ All (IsFree h base w) disks
check_base_disk_referenced-false h base disks w =
    (check-IsFree h base w disks, IsFree-check h base w disks)

-- Where every disk can be read, the listed count of references is zero exactly when the check
-- before a removal finds no reference.
pub count-check :
    {W : Type 0} (h : Host W) (base : String) (disks : List String) (w : W)
    → All (IsReadable h base w) disks
    → count_base_disk_references h base disks w 0 ≡ 0
      ↔ check_base_disk_referenced h base disks w ≡ false
count-check h base disks w r = (
  λ e. IsFree-check h base w disks (count-none h base w disks 0 r e),
  λ e. count-free h base w disks 0 (check-IsFree h base w disks e),
)
