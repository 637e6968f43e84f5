-- ===== src/BaseDisk.antt =====
-- crates/kit/src/libvirt/base_disks.rs: the base disks that the disks of domains are copied from on
-- write. The installation of an image to a disk (ToDisk.Command.run, what it returns aside) is the
-- parameter `to_disk`, as `hash_of` is of the cache. Log messages are left out, and the size and the creation
-- time of a base disk, which are only printed.
pub mod Prune
pub mod Create
pub mod Clone
pub mod Install
use bcvk.Common.{
  ℕ, ◌+◌, String, List, [], ◌∷◌, Option, none, some, Bool, true, false, not, ◌&&◌, ◌||◌, format,
  if◌then◌else◌, starts_with, ends_with, contains, strip_prefix, take_chars, unwrap_or, to_string,
}
use bcvk.Common.Text.Paths.{join_path, file_name, file_stem, parent}
use bcvk.Result.{Result, ok, err}
use bcvk.Host.{Host, Output, QemuImgInfo, Persisted}
use bcvk.Host.Persisted.{moved, already_exists}
use bcvk.Host.Exec.{
  Exec, pure, fail, lift, reads, queries, with_context, attempt, virsh, remove_file, create_temp,
  persist, ◌>>=◌, ◌>>◌,
}
use bcvk.Cache.{
  InstallOptions, CacheInputs, Validation, ValidationError, valid, invalid, missing_file,
  missing_xattr, hash_mismatch, from, compute_cache_hash, check_cached_disk,
  read_image_digest_from_path,
}
use bcvk.Ephemeral.DiskFiles.{Format}
use bcvk.Ephemeral.Options.{default_common_vm_opts}
use bcvk.ToDisk.{ToDiskOpts}
use bcvk.Pool.{get_libvirt_storage_pool_path, list_storage_pool_volumes, quoted}

-- the name of a base disk, by the cache hash
unfoldable pub base_disk_name : String → String
base_disk_name cache_hash = format (
    "bootc-base-"
    ∷ take_chars 16 (unwrap_or (strip_prefix "sha256:" cache_hash) cache_hash)
    ∷ ".qcow2"
    ∷ [])

or_default : Option String → String → Option String
or_default (some a) d = some a
or_default none d = some d

unfoldable pub to_disk_opts : String → String → InstallOptions → Option String → ToDiskOpts
unfolding or_default
to_disk_opts source_image target_disk install virtiofsd_binary = record {
  source_image = source_image;
  target_disk = target_disk;
  install = install;
  additional = record {
    disk_size = or_default install.root_size "20G";
    format = Format.qcow2;
    common = record default_common_vm_opts { memory = "4G"; virtiofsd_binary = virtiofsd_binary };
    install_log = none;
    label = [];
    dry_run = false;
    bootc_install_podman_args = [];
  };
}

-- `thiserror`'s text of a validation error
unfoldable pub validation_text : ValidationError → String
validation_text missing_file = "file is missing"
validation_text missing_xattr = "Missing extended attribute metadata"
validation_text hash_mismatch = "Hash mismatch"

module _ {W : Type 0} (h : Host W) (hash_of : CacheInputs → String) (connect_uri : Option String)
    (to_disk : ToDiskOpts → Exec W (Unit {0})) where
  -- Dropping the temporary file removes it.
  unfoldable pub drop_temp : {A : Type 0} → String → Exec W A → Exec W A
  drop_temp temp_path m = do attempt (remove_file h temp_path); m

  unfoldable pub persist_disk : String → String → Result Persisted → Exec W (Unit {0})
  unfolding drop_temp quoted
  persist_disk temp_path base_disk_path (ok moved) = pure tt
  persist_disk temp_path base_disk_path (ok already_exists) = drop_temp temp_path (pure tt)
  persist_disk temp_path base_disk_path (err e) =
      drop_temp temp_path
        (fail (format ("Failed to persist base disk to " ∷ quoted base_disk_path ∷ [])))

  unfoldable pub keep_if_valid : String → String → Result Validation → Exec W (Unit {0})
  unfolding persist_disk drop_temp validation_text
  keep_if_valid temp_path base_disk_path (ok valid) = do
    r ← attempt (persist h temp_path base_disk_path)
    persist_disk temp_path base_disk_path r
    attempt (virsh h connect_uri ("pool-refresh" ∷ "default" ∷ []))
    pure tt
  keep_if_valid temp_path base_disk_path (ok (invalid e)) =
      drop_temp temp_path
        (fail (format ("Generated disk metadata validation failed: " ∷ validation_text e ∷ [])))
  keep_if_valid temp_path base_disk_path (err e) = drop_temp temp_path (fail "Querying cached disk")

  -- `to_disk::run` on the temporary file, then the check of what it wrote
  unfoldable pub install_checked :
      String → String → String → String → InstallOptions → Result (Unit {0}) → Exec W (Unit {0})
  unfolding keep_if_valid drop_temp quoted
  install_checked temp_path base_disk_path source_image image_digest install_options (err e) =
      drop_temp temp_path
        (fail (format ("Failed to install bootc to base disk: " ∷ quoted temp_path ∷ [])))
  install_checked temp_path base_disk_path source_image image_digest install_options (ok _) = do
    metadata_valid ←
        attempt (check_cached_disk hash_of h temp_path image_digest source_image install_options)
    keep_if_valid temp_path base_disk_path metadata_valid

  unfoldable pub create_base_disk :
      String → String → String → InstallOptions → Option String → Exec W (Unit {0})
  unfolding install_checked to_disk_opts quoted
  create_base_disk base_disk_path source_image image_digest install_options virtiofsd_binary = do
    temp_path ←
        with_context
          (create_temp h (format (file_stem base_disk_path ∷ "." ∷ [])) ".tmp.qcow2"
            (parent base_disk_path))
          (format ("Failed to create temp file in " ∷ quoted (parent base_disk_path) ∷ []))
    r ← attempt (to_disk (to_disk_opts source_image temp_path install_options virtiofsd_binary))
    install_checked temp_path base_disk_path source_image image_digest install_options r

  create_then : String → String → String → InstallOptions → Option String → Exec W String
  create_then base_disk_path source_image image_digest install_options virtiofsd_binary = do
    create_base_disk base_disk_path source_image image_digest install_options virtiofsd_binary
    pure base_disk_path

  -- by what the check of the cached disk says
  unfoldable pub reuse_or_recreate :
      String → String → String → InstallOptions → Option String → Validation → Exec W String
  unfolding create_then quoted
  reuse_or_recreate base_disk_path source_image image_digest install_options virtiofsd_binary
        valid =
      pure base_disk_path
  reuse_or_recreate base_disk_path source_image image_digest install_options virtiofsd_binary
        (invalid _) =
      do
        with_context (remove_file h base_disk_path)
            (format ("Failed to remove stale base disk: " ∷ quoted base_disk_path ∷ []))
        create_then base_disk_path source_image image_digest install_options virtiofsd_binary

  unfoldable pub find_or_create_at :
      String → String → String → InstallOptions → Option String → Exec W String
  unfolding reuse_or_recreate create_then
  find_or_create_at base_disk_path source_image image_digest install_options virtiofsd_binary = do
    there ← reads (h.exists base_disk_path)
    if there
        then (do
          cached ←
              check_cached_disk hash_of h base_disk_path image_digest source_image install_options
          reuse_or_recreate base_disk_path source_image image_digest install_options
              virtiofsd_binary cached)
        else create_then base_disk_path source_image image_digest install_options virtiofsd_binary

  unfoldable pub find_or_create_base_disk :
      String → String → InstallOptions → Option String → Exec W String
  unfolding find_or_create_at base_disk_name
  find_or_create_base_disk source_image image_digest install_options virtiofsd_binary = do
    let name =
        base_disk_name (compute_cache_hash hash_of (from install_options image_digest source_image))
    pool_path ← get_libvirt_storage_pool_path h connect_uri
    find_or_create_at (join_path pool_path name) source_image image_digest install_options
        virtiofsd_binary
