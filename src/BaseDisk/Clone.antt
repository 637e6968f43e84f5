-- ===== src/BaseDisk/Clone.antt =====
-- crates/kit/src/libvirt/base_disks.rs: `clone_from_base`, the copy-on-write disk of a domain.
pub mod Outcome
use bcvk.Common.{
  String, List, [], ◌∷◌, Option, none, some, Bool, true, false, not, ◌||◌, format, if◌then◌else◌,
  contains, to_string,
}
use bcvk.Common.Text.Paths.{join_path, file_name}
use bcvk.Result.{Result, ok, err}
use bcvk.Host.{Host, Output}
use bcvk.Host.Exec.{
  Exec, pure, fail, reads, queries, with_context, attempt, virsh, remove_file, ◌>>=◌, ◌>>◌,
}
use bcvk.Pool.{get_libvirt_storage_pool_path, quoted}

abbrev pub vm_disk_name : String → String
vm_disk_name vm_name = format (vm_name ∷ ".qcow2" ∷ [])

abbrev pub delete_args : String → List String
delete_args name = "vol-delete" ∷ "--pool" ∷ "default" ∷ name ∷ []

abbrev pub create_args : String → String → String → List String
create_args name size backing =
    "vol-create-as" ∷ "default" ∷ name ∷ size ∷ "--format" ∷ "qcow2" ∷ "--backing-vol" ∷ backing
    ∷ "--backing-vol-format" ∷ "qcow2" ∷ []

module _ {W : Type 0} (h : Host W) (connect_uri : Option String) where
  -- A volume that libvirt does not know needs no deletion; any other failure ends the command.
  unfoldable pub deleted : String → Output → Exec W (Unit {0})
  deleted name output =
      if output.success
      then pure tt
      else if contains "Storage volume not found" output.stderr
          || contains "no storage vol" output.stderr
      then pure tt
      else fail (format ("Failed to delete existing volume '" ∷ name ∷ "': " ∷ output.stderr ∷ []))

  unfoldable pub delete_volume : String → Exec W (Unit {0})
  unfolding deleted
  delete_volume name = do
    output ← with_context (virsh h connect_uri (delete_args name)) "Failed to run virsh vol-delete"
    deleted name output

  unfoldable pub remove_untracked : String → Exec W (Unit {0})
  unfolding quoted
  remove_untracked path = do
    there ← reads (h.exists path)
    if there
        then with_context (remove_file h path)
            (format ("Failed to remove disk file: " ∷ quoted path ∷ []))
        else pure tt

  unfoldable pub filename_or_fail : String → Option String → Exec W String
  unfolding quoted
  filename_or_fail path none = fail (format ("Base disk path has no filename: " ∷ quoted path ∷ []))
  filename_or_fail path (some name) = pure name

  unfoldable pub created : String → Output → Exec W String
  created path output =
      if not output.success
      then fail (format ("Failed to create VM disk with backing file: " ∷ output.stderr ∷ []))
      else pure path

  unfoldable pub create_volume : String → String → String → Exec W String
  unfolding created filename_or_fail
  create_volume base_disk_path name path = do
    info ← queries h (h.image_info base_disk_path)
    base_disk_filename ← filename_or_fail base_disk_path (file_name base_disk_path)
    output ←
        with_context
          (virsh h connect_uri (create_args name (to_string info.virtual_size) base_disk_filename))
          "Failed to run virsh vol-create-as"
    created path output

  unfoldable pub clone_from_base : String → String → Exec W String
  unfolding delete_volume remove_untracked create_volume
  clone_from_base base_disk_path vm_name = do
    pool_path ← get_libvirt_storage_pool_path h connect_uri
    attempt (virsh h connect_uri ("pool-refresh" ∷ "default" ∷ []))
    delete_volume (vm_disk_name vm_name)
    remove_untracked (join_path pool_path (vm_disk_name vm_name))
    create_volume base_disk_path (vm_disk_name vm_name) (join_path pool_path (vm_disk_name vm_name))
