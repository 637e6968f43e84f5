-- ===== src/BaseDisk/Prune.antt =====
-- crates/kit/src/libvirt/base_disks.rs: the listing of the base disks and the removal of those that
-- no disk of a domain is based on.
pub mod Names
pub mod References
pub mod Safety
use bcvk.Common.{
  ℕ, ◌+◌, String, List, [], ◌∷◌, Option, none, some, Bool, true, false, not, ◌&&◌, ◌||◌, format,
  if◌then◌else◌, starts_with, ends_with, contains, unwrap_or,
}
use bcvk.Common.Text.Paths.{join_path, file_name}
use bcvk.Result.{Result, ok, err}
use bcvk.Host.{Host, Output, QemuImgInfo}
use bcvk.Host.Exec.{Exec, pure, fail, reads, with_context, attempt, virsh, ◌>>=◌, ◌>>◌}
use bcvk.Cache.{read_image_digest_from_path}
use bcvk.Pool.{get_libvirt_storage_pool_path, list_storage_pool_volumes, quoted}

-- `file_name().unwrap()` of a base disk's path is written with an empty name where it would panic;
-- those paths end in the name of a directory's entry.

-- `BaseDiskInfo`, but for its size and creation time
pub record BaseDiskInfo : Type 0 where
  pub path : String
  pub image_digest : Option String
  pub ref_count : ℕ

unfoldable pub has_other_name : Option String → Bool
has_other_name none = false
has_other_name (some name) = not (starts_with "bootc-base-" name)

-- the volumes that are not base disks
unfoldable pub vm_disks : List String → List String
unfolding has_other_name
vm_disks [] = []
vm_disks (path ∷ rest) =
    let more = vm_disks rest in if has_other_name (file_name path) then path ∷ more else more

unfoldable pub is_base_disk : String → Bool
is_base_disk name = starts_with "bootc-base-" name && ends_with ".qcow2" name

unfoldable pub names_base : String → Option String → Bool
names_base base none = false
names_base base (some backing_file) = contains base backing_file

-- whether one of an image's backing file names contains the base disk's
unfoldable pub backed_by : String → QemuImgInfo → Bool
unfolding names_base
backed_by base info =
    names_base base info.backing_filename || names_base base info.full_backing_filename

module _ {W : Type 0} (h : Host W) where
  -- one round of the loop of `count_base_disk_references`, an unreadable disk skipped
  counted : String → Result QemuImgInfo → ℕ → ℕ
  unfolding backed_by
  counted base (err _) count = count
  counted base (ok info) count = if backed_by base info then count + 1 else count

  -- `base` is the file name of the base disk
  unfoldable pub count_base_disk_references : String → List String → W → ℕ → ℕ
  unfolding counted
  count_base_disk_references base [] w count = count
  count_base_disk_references base (vm_disk ∷ rest) w count =
      count_base_disk_references base rest w (counted base (h.image_info vm_disk w) count)

  -- one round of the loop of `check_base_disk_referenced`: an unreadable disk is taken to refer to it
  refers : String → Result QemuImgInfo → Bool
  unfolding backed_by
  refers base (err _) = true
  refers base (ok info) = backed_by base info

  unfoldable pub check_base_disk_referenced : String → List String → W → Bool
  unfolding refers
  check_base_disk_referenced base [] w = false
  check_base_disk_referenced base (vm_disk ∷ rest) w =
      refers base (h.image_info vm_disk w) || check_base_disk_referenced base rest w

  readable : {A : Type 0} → Result (Option A) → Option A
  readable (ok a) = a
  readable (err _) = none

  module _ (connect_uri : Option String) where
    -- the base disks among the entries of the pool's directory
    unfoldable pub base_disks_in : String → List String → List String → Exec W (List BaseDiskInfo)
    unfolding readable
    base_disks_in pool_path disks [] = pure []
    base_disks_in pool_path disks (name ∷ rest) =
        if is_base_disk name
        then (do
          digest ← attempt (read_image_digest_from_path h (join_path pool_path name))
          ref_count ← reads (λ w.
              count_base_disk_references (unwrap_or (file_name (join_path pool_path name)) "") disks
                w 0)
          more ← base_disks_in pool_path disks rest
          pure (
              record {
                path = join_path pool_path name;
                image_digest = readable digest;
                ref_count = ref_count;
              }
              ∷ more))
        else base_disks_in pool_path disks rest

    entries : String → List String → Result (List String) → Exec W (List BaseDiskInfo)
    unfolding base_disks_in
    entries pool_path disks (err _) = pure []
    entries pool_path disks (ok names) = base_disks_in pool_path disks names

    unfoldable pub list_base_disks : Exec W (List BaseDiskInfo)
    unfolding entries
    list_base_disks = do
      pool_path ← get_libvirt_storage_pool_path h connect_uri
      all_volumes ← list_storage_pool_volumes h connect_uri
      names ← reads (h.read_dir pool_path)
      entries pool_path (vm_disks all_volumes) names

    unfoldable pub delete_base : String → Option String → Exec W (Unit {0})
    delete_base path none = fail (format ("Base disk path has no filename: " ∷ quoted path ∷ []))
    delete_base path (some name) = do
      output ←
          with_context (virsh h connect_uri ("vol-delete" ∷ "--pool" ∷ "default" ∷ name ∷ []))
            (format ("Failed to run virsh vol-delete for " ∷ name ∷ []))
      if not output.success
          then fail
              (format ("Failed to delete base disk volume '" ∷ name ∷ "': " ∷ output.stderr ∷ []))
          else pure tt

    -- an unreferenced base disk
    unfoldable pub prune_disk : Bool → String → Exec W (Unit {0})
    unfolding delete_base quoted
    prune_disk true path = pure tt
    prune_disk false path = delete_base path (file_name path)

    unfoldable pub prune_each : Bool → List String → List BaseDiskInfo → Exec W (List String)
    unfolding prune_disk
    prune_each dry_run disks [] = pure []
    prune_each dry_run disks (base_disk ∷ rest) = do
      let base = unwrap_or (file_name base_disk.path) ""
      is_referenced ← reads (check_base_disk_referenced base disks)
      if is_referenced then prune_each dry_run disks rest else (do
        prune_disk dry_run base_disk.path
        more ← prune_each dry_run disks rest
        pure (base_disk.path ∷ more))

    unfoldable pub prune_base_disks : Bool → Exec W (List String)
    unfolding prune_each list_base_disks
    prune_base_disks dry_run = do
      base_disks ← list_base_disks
      all_volumes ← list_storage_pool_volumes h connect_uri
      prune_each dry_run (vm_disks all_volumes) base_disks
