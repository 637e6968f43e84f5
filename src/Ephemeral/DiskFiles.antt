-- ===== src/Ephemeral/DiskFiles.antt =====
-- crates/kit/src/run_ephemeral.rs: the disk files of `--mount-disk-file`. The file system and the size
-- that podman gives for the image are a parameter.
pub mod Existing
use bcvk.Common.{
  ℕ, ◌*◌, ◌%◌, ◌^◌, String, Bool, not, Option, none, some, List, [], ◌∷◌, ◌==◌, if◌then◌else◌,
  format, starts_with, ends_with, split_once, is_empty, leb,
}
use bcvk.Result.{Result, ok, err}
use bcvk.Host.{Action}
use bcvk.Host.Exec.{Exec, pure, fail, lift, reads, with_context, ◌>>=◌, ◌>>◌}

pub data Format : Type 0 where
  raw qcow2 : Format

unfoldable pub detect_format : String → Format
detect_format file = if ends_with ".qcow2" file then Format.qcow2 else Format.raw

unfoldable pub parse_format : String → Result Format
parse_format text =
    if text == "raw"
    then ok Format.raw
    else if text == "qcow2"
    then ok Format.qcow2
    else err (format ("Unsupported disk format: " ∷ text ∷ []))

unfoldable pub named :
    String → String → Option (String × String) → Result (String × String × Format)
unfolding parse_format detect_format
named file rest none = ok (file, rest, detect_format file)
named file rest (some (name, text)) = elim (parse_format text) [
  | ok found ↦ ok (file, name, found)
  | err e ↦ err e
]

-- a specification's file, the disk's name and its format
unfoldable pub parse_disk_spec : String → Result (String × String × Format)
unfolding named
parse_disk_spec disk_spec = elim (split_once ":" disk_spec) [
  | none ↦ ok (disk_spec, "output", detect_format disk_spec)
  | some parts ↦ named parts.0 parts.1 (split_once ":" parts.1)
]

pub record DiskHost (W : Type 0) : Type 0 where
  -- `podman::get_image_size`, of 64 bits
  pub get_image_size : String → W → Result ℕ
  pub exists : String → W → Bool
  -- `metadata()`, and whether it is of a regular file
  pub is_file : String → W → Result Bool
  -- `File::create`, and `set_len` of the file that was opened
  pub create : String → W → Result (Unit {0}) × W
  pub set_len : String → ℕ → W → Result (Unit {0}) × W
  pub canonicalize : String → W → Result String

module _ {W : Type 0} (h : DiskHost W) where
  -- what is asked and may fail
  unfoldable pub asks : {A : Type 0} → (W → Result A) → Exec W A
  asks f s = (f s.world, s)

  unfoldable pub create : String → Exec W (Unit {0})
  create path s =
      let (r, w) = h.create path s.world in
      (r, record { world = w; log = Action.write_file path ∷ s.log })

  unfoldable pub set_len : String → ℕ → Exec W (Unit {0})
  set_len path size s =
      let (r, w) = h.set_len path size s.world in
      (r, record { world = w; log = Action.write_file path ∷ s.log })

  -- a file that is there must be a regular one
  unfoldable pub check_regular : String → Exec W (Unit {0})
  unfolding asks
  check_regular file = do
    is_file ←
        with_context (asks (h.is_file file))
          (format ("Failed to get metadata for disk file: " ∷ file ∷ []))
    if not is_file
        then fail (
            format
              ("Disk file must be a regular file, not a directory or block device: " ∷ file ∷ []))
        else pure tt

  unfoldable pub create_sparse : ℕ → String → Exec W (Unit {0})
  unfolding create set_len
  create_sparse disk_size file =
      with_context (create file) (format ("Failed to create disk file: " ∷ file ∷ []))
      >> with_context (set_len file disk_size)
          (format ("Failed to set size for disk file: " ∷ file ∷ []))

  unfoldable pub check_or_create : ℕ → String → Bool → Exec W (Unit {0})
  unfolding check_regular create_sparse
  check_or_create disk_size file there =
      if there then check_regular file else create_sparse disk_size file

  unfoldable pub absolute : String → Exec W String
  unfolding asks
  absolute file = if starts_with "/" file then pure file else asks (h.canonicalize file)

  unfoldable pub process_file : ℕ → String × String × Format → Exec W (String × String × Format)
  unfolding check_or_create absolute
  process_file disk_size (file, name, found) = do
    there ← reads (h.exists file)
    check_or_create disk_size file there
    path ← absolute file
    pure (path, name, found)

  unfoldable pub process_each : ℕ → List String → Exec W (List (String × String × Format))
  unfolding process_file parse_disk_spec
  process_each disk_size [] = pure []
  process_each disk_size (disk_spec ∷ rest) = do
    parsed ← lift (parse_disk_spec disk_spec)
    disk ← process_file disk_size parsed
    more ← process_each disk_size rest
    pure (disk ∷ more)

  -- twice the image's size, in 64 bits, and 4 GiB at least
  unfoldable pub disk_size_of : ℕ → ℕ
  disk_size_of image_size =
      let twice = image_size * 2 % 2 ^ 64 in if leb twice 4294967296 then 4294967296 else twice

  unfoldable pub process_disk_files :
      List String → String → Exec W (List (String × String × Format))
  unfolding process_each disk_size_of asks
  process_disk_files disk_specs image =
      if is_empty disk_specs
      then pure []
      else asks (h.get_image_size image) >>= λ image_size.
          process_each (disk_size_of image_size) disk_specs
