-- ===== src/BaseDisk/Prune/Names.antt =====
-- The names of the base disks and of the other volumes (crates/kit/src/libvirt/base_disks.rs).
use bcvk.Common.{
  String, List, [], ◌∷◌, Option, none, some, Bool, true, false, ◌≡◌, ◌≢◌, refl, ap, arith, All,
  if◌then◌else◌, unwrap_or, starts_with,
}
use bcvk.Common.Text.Paths.{file_name}
use bcvk.BaseDisk.Prune.{BaseDiskInfo, vm_disks, has_other_name}

-- the name that a base disk is deleted by
abbrev pub name_of : String → String
name_of path = unwrap_or (file_name path) ""

-- no disk has the name that a base disk is deleted by
abbrev pub IsApart : List String → String → Type 0
IsApart disks path = All (λ d. name_of path ≢ name_of d) disks

other_name :
    (o : Option String)
    → has_other_name o ≡ true
    → starts_with "bootc-base-" (unwrap_or o "") ≡ false
unfolding has_other_name
other_name none e = cc
other_name (some n) e = ground arith

pub vm_disks-named_otherwise :
    (volumes : List String)
    → All (λ d. starts_with "bootc-base-" (name_of d) ≡ false) (vm_disks volumes)
unfolding vm_disks
vm_disks-named_otherwise [] = tt
vm_disks-named_otherwise (v ∷ vs) =
    go (vm_disks-named_otherwise vs) (has_other_name (file_name v)) refl
  where
    go :
        All (λ d. starts_with "bootc-base-" (name_of d) ≡ false) (vm_disks vs)
        → (b : Bool) → has_other_name (file_name v) ≡ b
        → All
            (λ d. starts_with "bootc-base-" (name_of d) ≡ false)
            (if b then v ∷ vm_disks vs else vm_disks vs)
    go rest true e = (other_name (file_name v) e, rest)
    go rest false e = rest

named-IsApart :
    (disks : List String) (path : String)
    → All (λ d. starts_with "bootc-base-" (name_of d) ≡ false) disks
    → starts_with "bootc-base-" (name_of path) ≡ true
    → IsApart disks path
named-IsApart [] path o e = tt
named-IsApart (d ∷ ds) path (o, os) e =
    (λ same. let p = ap (starts_with "bootc-base-") same in cc, named-IsApart ds path os e)

pub bases-IsApart :
    (disks : List String)
    → All (λ d. starts_with "bootc-base-" (name_of d) ≡ false) disks
    → (bases : List BaseDiskInfo)
    → All (λ b. starts_with "bootc-base-" (name_of b.path) ≡ true) bases
    → All (λ b. IsApart disks b.path) bases
bases-IsApart disks o [] e = tt
bases-IsApart disks o (b ∷ bs) (e, es) =
    (named-IsApart disks b.path o e, bases-IsApart disks o bs es)
