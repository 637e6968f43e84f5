-- ===== src/Tests/Disks.antt =====
-- The theorems on base disks and cached images, applied.
use bcvk.Common.{
  String, List, [], ◌∷◌, Option, none, some, true, false, ◌≡◌, ◌≢◌, ◌↔◌, inl, inr, refl, sym, ap,
  ◌∙◌, All, if◌then◌else◌, trim, contains, starts_with, ends_with, split, join, ◌==◌, eq_iff,
  eq_refl, Bool-cases,
}
use bcvk.Common.Text.Paths.{join_path, file_name, file_stem, parent}
use bcvk.Result.{Result, ok, err}
use bcvk.Host.{Host, Machine}
use bcvk.Host.Persisted.{moved}
use bcvk.Host.Exec.{Logged, virsh, create_temp, setxattr, queries, ◌>>=◌, Exec}
use bcvk.Tests.{host, begin, printed, overlay}
use bcvk.Cache.{
  InstallOptions, CacheInputs, DiskImageMetadata, valid, from, check_cached_disk, write_to_file,
}
use bcvk.Cache.Reuse.{write_to_file-check}
use bcvk.Xml.{parse_xml_dom, find}
use bcvk.Pool.{get_libvirt_storage_pool_path}
use bcvk.Pool.Setup.{LeavesDisks}
use bcvk.BaseDisk.{create_base_disk}
use bcvk.ToDisk.{ToDiskOpts}
use bcvk.BaseDisk.Create.{create_base_disk-discards, Discarded}
use bcvk.BaseDisk.Clone.{
  clone_from_base, delete_volume, deleted, remove_untracked, create_volume, vm_disk_name,
}
use bcvk.BaseDisk.Clone.Outcome.{Creates, clone_from_base-Creates}
use bcvk.BaseDisk.Prune.{
  vm_disks, has_other_name, names_base, BaseDiskInfo, prune_base_disks, prune_each, delete_base,
  check_base_disk_referenced, backed_by,
}
use bcvk.BaseDisk.Prune.References.{IsFree}
use bcvk.BaseDisk.Prune.Names.{name_of}
use bcvk.BaseDisk.Prune.Safety.{prune_base_disks-dry_run, prune_each-unreferenced, with_deletions}

abbrev pub options : InstallOptions
options = record {
  filesystem = some "xfs";
  root_size = none;
  storage_path = none;
  target_transport = none;
  karg = [];
  composefs_backend = false;
  bootloader = none;
  allow_missing_fsverity = false;
}

-- a hash of the digest alone
abbrev pub hash_of : CacheInputs → String
hash_of i = i.image_digest

-- the extended attributes of the one file there is
abbrev pub Xattrs : Type 0
Xattrs = String → Option String

abbrev pub attributed : Host Xattrs
attributed = record {
  virsh = λ uri args w. (ok (printed ""), w);
  exists = λ path w. true;
  remove_file = λ path w. (ok tt, w);
  image_info = λ path w. ok overlay;
  getxattr = λ path key w. ok (w key);
  setxattr = λ path key value w. (ok tt, λ k. if k == key then some value else w k);
  create_dir_all = λ path w. (ok tt, w);
  create_temp = λ prefix suffix dir w. (ok "/pool/new", w);
  write_file = λ path text w. (ok tt, w);
  persist = λ from to w. (ok moved, w);
  env = λ name. none;
  read_dir = λ dir w. ok [];
  read_events = λ text. [];
  unescape = λ text. some text;
  decode_base64 = λ text. none;
}

abbrev metadata : DiskImageMetadata
metadata = from options "sha256:abc" "quay.io/image"

abbrev pub bare : Machine Xattrs
bare = record { world = λ k. none; log = [] }

abbrev pub marked : Machine Xattrs
marked = (write_to_file hash_of attributed metadata "disk" bare).1

pub reads_own :
    (k v : String) (w u : Xattrs)
    → attributed.setxattr "disk" k v w ≡ (ok tt, u)
    → attributed.getxattr "disk" k u ≡ ok (some v)
reads_own k v w u e =
    let same = eq_refl k in
    let read : attributed.getxattr "disk" k (attributed.setxattr "disk" k v w).1 ≡ ok (some v) =
      rw same refl in
    ap (λ p. attributed.getxattr "disk" k p.1) (sym e) ∙ read

pub keeps_other :
    (k j v : String) (w : Xattrs)
    → k ≢ j
    → attributed.getxattr "disk" k (attributed.setxattr "disk" j v w).1
      ≡ attributed.getxattr "disk" k w
keeps_other k j v w n = elim (Bool-cases (k == j)) [
  | inl same ↦ absurd (n ((eq_iff k j).0 same))
  | inr different ↦ rw different refl
]

write_to_file-check_example :
    check_cached_disk hash_of attributed "disk" "sha256:abc" "quay.io/image" options marked
      ≡ (ok valid, marked)
    ↔ from options "sha256:abc" "quay.io/image" ≡ metadata
unfolding write_to_file setxattr ◌>>=◌
write_to_file-check_example =
    write_to_file-check hash_of attributed metadata options "sha256:abc" "quay.io/image" "disk" bare
      marked reads_own keeps_other (λ p. refl) refl refl

abbrev fails : ToDiskOpts → Exec Xattrs (Unit {0})
fails o s = (err "no space", s)

abbrev pub base_path : String
base_path = "/pool/bootc-base-abc.qcow2"

abbrev pub opened : Machine Xattrs
opened = (create_temp attributed "bootc-base-abc." ".tmp.qcow2" "/pool" bare).1

abbrev installed : Machine Xattrs
installed = (write_to_file hash_of attributed metadata "/pool/new" opened).1

abbrev success : Result (Unit {0})
success = ok tt

create_base_disk-discards_example : Discarded attributed hash_of none fails "/pool/new" opened (
    create_base_disk attributed hash_of none fails base_path "quay.io/image" "sha256:abc" options
      none bare)
unfolding create_temp file_stem parent starts_with split join ◌>>=◌
create_base_disk-discards_example =
    create_base_disk-discards attributed hash_of none fails base_path "quay.io/image" "sha256:abc"
      "/pool/new" options none bare opened opened (err "no space") refl refl (inl (λ e. cc))

abbrev pooled : Host (Unit {0})
pooled = host (ok (printed "")) false

abbrev cloned : Machine (Unit {0})
cloned = (clone_from_base pooled none base_path "web" begin).1

clone_from_base-Creates_example :
    (pool : String) × (u : Machine (Unit {0})) × (get_libvirt_storage_pool_path pooled none begin
      ≡ (ok pool, u))
    × ("/pool/web.qcow2" ≡ join_path pool (vm_disk_name "web"))
    × Creates pooled none base_path (vm_disk_name "web") cloned
unfolding clone_from_base get_libvirt_storage_pool_path delete_volume deleted remove_untracked
    create_volume virsh parse_xml_dom find trim contains file_name split queries join_path
    starts_with ends_with ◌>>=◌
clone_from_base-Creates_example =
    clone_from_base-Creates pooled none base_path "web" "/pool/web.qcow2" begin cloned refl

prune_base_disks-dry_run_example : Logged LeavesDisks (prune_base_disks pooled none true begin).1
prune_base_disks-dry_run_example =
    prune_base_disks-dry_run pooled none begin (record { calls = tt })

abbrev one_base : List BaseDiskInfo
one_base = record { path = base_path; image_digest = none; ref_count = 0 } ∷ []

abbrev pruned : Machine (Unit {0})
pruned = (prune_each pooled none false ("/pool/web.qcow2" ∷ []) one_base begin).1

prune_each-unreferenced_example :
    All
      (λ path. All (IsFree pooled (name_of path) tt) (vm_disks ("/pool/web.qcow2" ∷ [])))
      (base_path ∷ [])
    × (pruned.log ≡ with_deletions (base_path ∷ []) [])
unfolding vm_disks has_other_name names_base prune_each delete_base check_base_disk_referenced
    backed_by file_name split contains starts_with virsh ◌>>=◌
prune_each-unreferenced_example =
    prune_each-unreferenced pooled none ("/pool/web.qcow2" ∷ []) one_base (base_path ∷ []) begin
      pruned ((λ path w _. refl), tt) (refl, tt) refl
