-- ===== src/Storage.antt =====
-- The container storage of the host, in crates/kit/src/utils.rs.
use bcvk.Common.{String, Bool, not, ◌&&◌, Option, List, [], ◌∷◌, if◌then◌else◌, format}
use bcvk.Common.Text.Paths.{join_path}
use bcvk.Result.{Result, ok_or}
use bcvk.Host.{Output}
use bcvk.Host.Exec.{Exec, pure, fail, lift, reads, with_context, ◌>>=◌, ◌>>◌}

-- the file system, `podman` with its arguments, and the `store.graphRoot` in what it prints
pub record StorageHost (W : Type 0) : Type 0 where
  pub exists : String → W → Bool
  pub is_dir : String → W → Bool
  pub podman : List String → W → Result Output
  pub graph_root : String → Result (Option String)

module _ {W : Type 0} (r : StorageHost W) where
  -- a directory, or one of two errors
  abbrev pub is_directory : String → String → String → Exec W (Unit {0})
  is_directory path missing other = do
    there ← reads (r.exists path)
    dir ← reads (r.is_dir path)
    if not there then fail missing else if not dir then fail other else pure tt

  unfoldable pub podman : List String → Exec W Output
  podman args s = (r.podman args s.world, s)

  unfoldable pub detect_container_storage_path : Exec W String
  unfolding podman
  detect_container_storage_path = do
    output ←
        with_context (podman ("system" ∷ "info" ∷ "--format" ∷ "json" ∷ []))
          "Failed to run 'podman system info'. Ensure podman is installed and accessible."
    if not output.success
        then fail (format ("podman system info failed: " ∷ output.stderr ∷ []))
        else (do
          root ←
              with_context (lift (r.graph_root output.stdout))
                "Failed to parse podman system info JSON"
          path ← lift (ok_or root "Could not find graphRoot in podman system info")
          is_directory path (format ("Storage path from podman does not exist: " ∷ path ∷ []))
              (format ("Storage path from podman is not a directory: " ∷ path ∷ []))
          pure path)

  unfoldable pub validate_container_storage_path : String → Exec W (Unit {0})
  validate_container_storage_path path = do
    is_directory path (format ("Container storage path does not exist: " ∷ path ∷ []))
        (format ("Container storage path is not a directory: " ∷ path ∷ []))
    overlay ← reads (r.exists (join_path path "overlay"))
    images ← reads (r.exists (join_path path "overlay-images"))
    if not overlay && not images
        then fail (
            format (
              "Path does not appear to be a valid container storage directory: " ∷ path
              ∷ ". Missing overlay subdirectories." ∷ []))
        else pure tt
