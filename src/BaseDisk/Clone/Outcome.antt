-- ===== src/BaseDisk/Clone/Outcome.antt =====
-- What `clone_from_base` (crates/kit/src/libvirt/base_disks.rs) has done when it returns.
use bcvk.Common.{String, List, [], ◌∷◌, Option, none, some, ◌≡◌, arith, format, to_string}
use bcvk.Common.Text.Paths.{join_path, file_name}
use bcvk.Result.{ok}
use bcvk.Host.{Host, Machine, Action, QemuImgInfo}
use bcvk.Host.Exec.{pure, fail, with_context, virsh, queries, ◌>>=◌, >>=-eq-ok, newest}
use bcvk.Pool.{get_libvirt_storage_pool_path}
use bcvk.BaseDisk.Clone.{
  vm_disk_name, create_args, filename_or_fail, created, create_volume, clone_from_base,
}

module _ {W : Type 0} (h : Host W) (uri : Option String) (base : String) where
  -- the newest call makes a volume of the base disk's size, backed by it
  abbrev pub Creates : String → Machine W → Type 0
  Creates name t =
      (file : String) × (info : QemuImgInfo) × (w : W) × (file_name base ≡ some file)
      × (h.image_info base w ≡ ok info)
      × (newest t
          ≡ some (
              Action.virsh (
                "vol-create-as"
                ∷ "default"
                ∷ name
                ∷ to_string info.virtual_size
                ∷ "--format"
                ∷ "qcow2"
                ∷ "--backing-vol"
                ∷ file
                ∷ "--backing-vol-format"
                ∷ "qcow2"
                ∷ [])))

  named :
      (f : Option String) (file : String) (s t : Machine W)
      → filename_or_fail h uri base f s ≡ (ok file, t)
      → f ≡ some file
  unfolding filename_or_fail pure fail
  named none file s t e = cc
  named (some n) file s t e = ground arith

  created-newest :
      (args : List String) (path p : String) (s t : Machine W)
      → (with_context (virsh h uri args) "Failed to run virsh vol-create-as" >>= created h uri path)
          s
        ≡ (ok p, t)
      → (p ≡ path) × (newest t ≡ some (Action.virsh args))
  unfolding created virsh ◌>>=◌
  created-newest args path p s t e = (ground arith, ground arith)

  info_of :
      (info : QemuImgInfo) (s t : Machine W)
      → queries h (h.image_info base) s ≡ (ok info, t)
      → h.image_info base s.world ≡ ok info
  unfolding queries
  info_of info s t e = ground arith

  create_volume-Creates :
      (name path p : String) (s t : Machine W)
      → create_volume h uri base name path s ≡ (ok p, t)
      → (p ≡ path) × Creates name t
  unfolding create_volume
  create_volume-Creates name path p s t e =
      let (info, s1, i, e1) = >>=-eq-ok _ _ s e in
      let (file, s2, f, e2) = >>=-eq-ok _ _ s1 e1 in
      let (same, call) =
        created-newest (create_args name (to_string info.virtual_size) file) path p s2 t e2 in
      (same, (file, info, s.world, named (file_name base) file s1 s2 f, info_of info s s1 i, call))

-- When a base disk has been cloned, the path returned is the domain's disk in the pool's directory,
-- and the newest call is the `vol-create-as` of that disk with the virtual size that was read from
-- the base disk, and with the base disk's file name as its backing volume.
pub clone_from_base-Creates :
    {W : Type 0} (h : Host W) (uri : Option String) (base vm p : String) (s t : Machine W)
    → clone_from_base h uri base vm s ≡ (ok p, t)
    → (pool : String) × (u : Machine W) × (get_libvirt_storage_pool_path h uri s ≡ (ok pool, u))
      × (p ≡ join_path pool (format (vm ∷ ".qcow2" ∷ [])))
      × Creates h uri base (format (vm ∷ ".qcow2" ∷ [])) t
unfolding clone_from_base
clone_from_base-Creates h uri base vm p s t e =
    let (pool, s1, e1, f1) = >>=-eq-ok _ _ s e in
    let (_, s2, _, f2) = >>=-eq-ok _ _ s1 f1 in
    let (_, s3, _, f3) = >>=-eq-ok _ _ s2 f2 in
    let (_, s4, _, f4) = >>=-eq-ok _ _ s3 f3 in
    let (same, call) = create_volume-Creates h uri base (vm_disk_name vm) _ p s4 t f4 in
    (pool, s1, e1, same, call)
