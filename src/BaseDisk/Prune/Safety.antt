-- ===== src/BaseDisk/Prune/Safety.antt =====
-- What `prune_base_disks` (crates/kit/src/libvirt/base_disks.rs) may delete.
use bcvk.Common.{
  String, List, [], ◌∷◌, Option, none, some, Bool, true, false, ◌≡◌, refl, ap, sym, ◌∙◌, arith, All,
  if◌then◌else◌, ◌≢◌, starts_with,
}
use bcvk.Common.Text.Paths.{file_name}
use bcvk.Result.{Result, ok, err}
use bcvk.Host.{Host, Machine, Action}
use bcvk.Host.Exec.{
  pure, virsh, ◌>>=◌, ◌>>◌, >>=-eq-ok, reads-bind, pure-eq-ok, Keeps, Keeps-bind, Keeps-if,
  Keeps-pure, Keeps-reads, Keeps-attempt, Keeps-queries, Logged,
}
use bcvk.Cache.{read_image_digest_from_path}
use bcvk.Pool.Setup.{
  LeavesDisks, get_libvirt_storage_pool_path-pool, list_storage_pool_volumes-pool,
}
use bcvk.BaseDisk.Prune.{
  BaseDiskInfo, vm_disks, is_base_disk, check_base_disk_referenced, base_disks_in, entries,
  list_base_disks, prune_disk, delete_base, prune_each, prune_base_disks,
}
use bcvk.BaseDisk.Prune.Names.{name_of, IsApart, vm_disks-named_otherwise, bases-IsApart}
use bcvk.BaseDisk.Prune.References.{IsFree, check-IsFree}

module _ {W : Type 0} (h : Host W) (uri : Option String) where
  read_image_digest-pool :
      (path : String) → Keeps (Logged LeavesDisks) (read_image_digest_from_path h path)
  unfolding read_image_digest_from_path
  read_image_digest-pool path =
      Keeps-bind _ _ (Keeps-reads _)
        (λ there. Keeps-if there _ _ (Keeps-queries h _) (Keeps-pure none))

  base_disks_in-pool :
      (pool : String) (disks names : List String)
      → Keeps (Logged LeavesDisks) (base_disks_in h uri pool disks names)
  unfolding base_disks_in
  base_disks_in-pool pool disks [] = Keeps-pure []
  base_disks_in-pool pool disks (n ∷ ns) =
      let more = base_disks_in-pool pool disks ns in
      Keeps-if (is_base_disk n) _ _
        (Keeps-bind _ _ (Keeps-attempt _ (read_image_digest-pool _))
          (λ d. Keeps-bind _ _ (Keeps-reads _) (λ c. Keeps-bind _ _ more (λ m. Keeps-pure _))))
        more

  entries-pool :
      (pool : String) (disks : List String) (r : Result (List String))
      → Keeps (Logged LeavesDisks) (entries h uri pool disks r)
  unfolding entries
  entries-pool pool disks (ok names) = base_disks_in-pool pool disks names
  entries-pool pool disks (err e) = Keeps-pure []

  list_base_disks-pool : Keeps (Logged LeavesDisks) (list_base_disks h uri)
  unfolding list_base_disks
  list_base_disks-pool = Keeps-bind _ _ (get_libvirt_storage_pool_path-pool h uri) (λ p.
      Keeps-bind _ _ (list_storage_pool_volumes-pool h uri)
        (λ v. Keeps-bind _ _ (Keeps-reads _) (λ ns. entries-pool p (vm_disks v) ns)))

  prune_each-dry :
      (disks : List String) (bases : List BaseDiskInfo)
      → Keeps (Logged LeavesDisks) (prune_each h uri true disks bases)
  unfolding prune_each prune_disk
  prune_each-dry disks [] = Keeps-pure []
  prune_each-dry disks (b ∷ bs) =
      let more = prune_each-dry disks bs in
      Keeps-bind _ _ (Keeps-reads _) (λ r.
        Keeps-if r _ _ more
          (Keeps-bind _ _ (Keeps-pure tt) (λ _. Keeps-bind _ _ more (λ m. Keeps-pure _))))

-- A dry run of the pruning deletes no volume: whatever the host answers, every libvirt call that it
-- adds to the log is on the pool itself.
pub prune_base_disks-dry_run :
    {W : Type 0} (h : Host W) (uri : Option String) (s : Machine W)
    → Logged LeavesDisks s
    → Logged LeavesDisks (prune_base_disks h uri true s).1
unfolding prune_base_disks
prune_base_disks-dry_run h uri s l =
    (Keeps-bind _ _ (list_base_disks-pool h uri) (λ b.
        Keeps-bind _ _ (list_storage_pool_volumes-pool h uri)
          (λ v. prune_each-dry h uri (vm_disks v) b))).kept
      s l

abbrev pub deletion : String → List String
deletion path = "vol-delete" ∷ "--pool" ∷ "default" ∷ name_of path ∷ []

-- the log after the deletion of some base disks, one after another
abbrev pub with_deletions : List String → List Action → List Action
with_deletions [] log = log
with_deletions (path ∷ rest) log = with_deletions rest (Action.virsh (deletion path) ∷ log)

module _ {W : Type 0} (h : Host W) (uri : Option String) where
  -- the deletion of a volume of another name leaves what is known of `disk` as it is
  abbrev pub Undisturbed : String → Type 0
  Undisturbed disk =
      (path : String) (w : W)
      → name_of path ≢ name_of disk
      → h.image_info disk (h.virsh uri (deletion path) w).1 ≡ h.image_info disk w

  delete_base-log :
      (path : String) (f : Option String) (s t : Machine W)
      → file_name path ≡ f
      → delete_base h uri path f s ≡ (ok tt, t)
      → (t.world ≡ (h.virsh uri (deletion path) s.world).1)
        × (t.log ≡ Action.virsh (deletion path) ∷ s.log)
  unfolding delete_base virsh ◌>>=◌
  delete_base-log path none s t q e = cc
  delete_base-log path (some n) s t q e = rw q (ground arith, ground arith)

  prune_disk-log :
      (path : String) (s t : Machine W)
      → prune_disk h uri false path s ≡ (ok tt, t)
      → (t.world ≡ (h.virsh uri (deletion path) s.world).1)
        × (t.log ≡ Action.virsh (deletion path) ∷ s.log)
  unfolding prune_disk
  prune_disk-log path s t e = delete_base-log path (file_name path) s t refl e

  before_deletion :
      (base path : String) (disks : List String) (w : W)
      → All Undisturbed disks
      → IsApart disks path
      → All (IsFree h base (h.virsh uri (deletion path) w).1) disks
      → All (IsFree h base w) disks
  before_deletion base path [] w u a f = tt
  before_deletion base path (d ∷ ds) w (u, us) (a, rest) ((info, e, b, c), f) =
      ((info, sym (u path w a) ∙ e, b, c), before_deletion base path ds w us rest f)

  abbrev pub Unused : List String → W → String → Type 0
  Unused disks w path = All (IsFree h (name_of path) w) disks

  before_deletion_each :
      (path : String) (disks pruned : List String) (w w' : W)
      → All Undisturbed disks
      → IsApart disks path
      → w' ≡ (h.virsh uri (deletion path) w).1
      → All (Unused disks w') pruned
      → All (Unused disks w) pruned
  before_deletion_each path disks [] w w' u a q f = tt
  before_deletion_each path disks (p ∷ ps) w w' u a q (f, fs) = (
    before_deletion (name_of p) path disks w u a (rw q at f),
    before_deletion_each path disks ps w w' u a q fs,
  )

  abbrev pub Pruned : List String → List String → Machine W → Machine W → Type 0
  Pruned disks pruned s t =
      All (Unused disks s.world) pruned × (t.log ≡ with_deletions pruned s.log)

  prune_each-Pruned :
      (disks : List String) (bases : List BaseDiskInfo) (pruned : List String) (s t : Machine W)
      → All Undisturbed disks
      → All (λ b. IsApart disks b.path) bases
      → prune_each h uri false disks bases s ≡ (ok pruned, t)
      → Pruned disks pruned s t
  unfolding prune_each
  prune_each-Pruned disks [] pruned s t u a e =
      let (p, q) = pure-eq-ok _ _ s t e in rw (sym p) (rw (sym q) (tt, refl))
  prune_each-Pruned disks (b ∷ bs) pruned s t u (a, rest) e =
      go (λ pruned s. prune_each-Pruned disks bs pruned s t u rest)
        (check_base_disk_referenced h (name_of b.path) disks s.world) refl
        (sym (reads-bind _ _ s) ∙ e)
    where
      go :
          ((pruned : List String) (s : Machine W)
            → prune_each h uri false disks bs s ≡ (ok pruned, t)
            → Pruned disks pruned s t)
          → (r : Bool) → check_base_disk_referenced h (name_of b.path) disks s.world ≡ r
          → (if r then prune_each h uri false disks bs else (do
            prune_disk h uri false b.path
            more ← prune_each h uri false disks bs
            pure (b.path ∷ more)))
              s
            ≡ (ok pruned, t)
          → Pruned disks pruned s t
      go ih true c e = ih pruned s e
      go ih false c e =
          let (_, s1, e1, f1) = >>=-eq-ok _ _ s e in
          let (more, s2, e2, f2) = >>=-eq-ok _ _ s1 f1 in
          let (p, q) = pure-eq-ok _ _ s2 t f2 in
          let (w, l) = prune_disk-log b.path s s1 e1 in
          let (f, ls) = ih more s1 (e2 ∙ ap (λ x. (ok more, x)) q) in
          rw (sym p) (
            (
              check-IsFree h (name_of b.path) s.world disks c,
              before_deletion_each b.path disks more s.world s1.world u a w f,
            ),
            ls ∙ ap (with_deletions more) l,
          )

-- A pruning that returns has deleted exactly the base disks that it lists, in that order and with no
-- other call, and for each of them, when the pruning of the base disks began, every other disk could
-- be read and neither of its backing file names contained the base disk's name. The base disks are
-- named `bootc-base-…`, and the other disks are those of the pool's volumes that are not. What is
-- taken for granted: the deletion of a volume does not change what is read of a disk with another
-- name.
pub prune_each-unreferenced :
    {W : Type 0} (h : Host W) (uri : Option String) (volumes : List String)
    (bases : List BaseDiskInfo) (pruned : List String) (s t : Machine W)
    → All (Undisturbed h uri) (vm_disks volumes)
    → All (λ b. starts_with "bootc-base-" (name_of b.path) ≡ true) bases
    → prune_each h uri false (vm_disks volumes) bases s ≡ (ok pruned, t)
    → All (λ path. All (IsFree h (name_of path) s.world) (vm_disks volumes)) pruned
      × (t.log ≡ with_deletions pruned s.log)
prune_each-unreferenced h uri volumes bases pruned s t u named e =
    prune_each-Pruned h uri (vm_disks volumes) bases pruned s t u
      (bases-IsApart (vm_disks volumes) (vm_disks-named_otherwise volumes) bases named) e
