-- ===== src/Cache.antt =====
-- crates/kit/src/cache_metadata.rs: the record of what a disk image was built from, kept in extended
-- attributes of the image and compared before the image is used again. `InstallOptions` is from
-- crates/kit/src/install_options.rs. serde_json and sha2 are parameters: `hash_of` is the hash, in
-- hexadecimal, of the JSON text of the inputs.
pub mod Reuse
use bcvk.Common.{
  ℕ, String, List, [], ◌∷◌, ◌++◌, Option, none, some, Bool, true, false, ◌==◌, map, format,
  if◌then◌else◌,
}
use bcvk.Result.{Result, ok, err}
use bcvk.Host.{Host}
use bcvk.Host.Exec.{Exec, pure, fail, reads, queries, with_context, setxattr, ◌>>=◌, ◌>>◌}

abbrev pub cache_hash_xattr : String
cache_hash_xattr = "user.bootc.cache_hash"

abbrev pub image_digest_xattr : String
image_digest_xattr = "user.bootc.image_digest"

pub record InstallOptions : Type 0 where
  pub filesystem : Option String
  pub root_size : Option String
  pub storage_path : Option String
  pub target_transport : Option String
  pub karg : List String
  pub composefs_backend : Bool
  pub bootloader : Option String
  pub allow_missing_fsverity : Bool

flag : String → Option String → List String
flag name none = []
flag name (some value) = name ∷ value ∷ []

switch : String → Bool → List String
switch name true = name ∷ []
switch name false = []

unfoldable pub to_bootc_args : InstallOptions → List String
unfolding flag switch
to_bootc_args o =
    flag "--filesystem" o.filesystem
    ++ flag "--root-size" o.root_size
    ++ map (λ k. format ("--karg=" ∷ k ∷ [])) o.karg
    ++ flag "--target-transport" o.target_transport
    ++ switch "--composefs-backend" o.composefs_backend
    ++ flag "--bootloader" o.bootloader
    ++ switch "--allow-missing-fsverity" o.allow_missing_fsverity

pub record CacheInputs : Type 0 where
  pub image_digest : String
  pub source_imgref : String
  pub target_transport : Option String
  pub filesystem : Option String
  pub root_size : Option String
  pub composefs_backend : Bool
  pub bootloader : Option String
  pub kernel_args : List String
  pub version : ℕ

pub record DiskImageMetadata : Type 0 where
  pub digest : String
  pub source_imgref : String
  pub target_transport : Option String
  pub filesystem : Option String
  pub root_size : Option String
  pub composefs_backend : Bool
  pub bootloader : Option String
  pub kernel_args : List String
  pub version : ℕ

-- `DiskImageMetadata::from`
unfoldable pub from : InstallOptions → String → String → DiskImageMetadata
from options image_digest source_imgref = record {
  version = 1;
  digest = image_digest;
  source_imgref = source_imgref;
  target_transport = options.target_transport;
  filesystem = options.filesystem;
  root_size = options.root_size;
  kernel_args = options.karg;
  composefs_backend = options.composefs_backend;
  bootloader = options.bootloader;
}

unfoldable pub inputs : DiskImageMetadata → CacheInputs
inputs m = record {
  image_digest = m.digest;
  source_imgref = m.source_imgref;
  target_transport = m.target_transport;
  filesystem = m.filesystem;
  root_size = m.root_size;
  composefs_backend = m.composefs_backend;
  bootloader = m.bootloader;
  kernel_args = m.kernel_args;
  version = m.version;
}

pub data ValidationError : Type 0 where
  missing_file : ValidationError
  missing_xattr : ValidationError
  hash_mismatch : ValidationError

pub data Validation : Type 0 where
  valid : Validation
  invalid : ValidationError → Validation

module _ {W : Type 0} (h : Host W) where
  unfoldable pub read_image_digest_from_path : String → Exec W (Option String)
  read_image_digest_from_path path = do
    there ← reads (h.exists path)
    if there then queries h (h.getxattr path image_digest_xattr) else pure none

module _ (hash_of : CacheInputs → String) where
  unfoldable pub compute_cache_hash : DiskImageMetadata → String
  unfolding inputs
  compute_cache_hash m = format ("sha256:" ∷ hash_of (inputs m) ∷ [])

  module _ {W : Type 0} (h : Host W) where
    unfoldable pub write_to_file : DiskImageMetadata → String → Exec W (Unit {0})
    unfolding compute_cache_hash
    write_to_file m file = do
      with_context (setxattr h file cache_hash_xattr (compute_cache_hash m))
          "Failed to set cache hash xattr"
      with_context (setxattr h file image_digest_xattr m.digest) "Failed to set image digest xattr"

    unfoldable pub compare : String → Option String → Validation
    compare expected none = invalid missing_xattr
    compare expected (some cached) = if expected == cached then valid else invalid hash_mismatch

    unfoldable pub check_cached_disk : String → String → String → InstallOptions → Exec W Validation
    unfolding compare compute_cache_hash from
    check_cached_disk path image_digest source_imgref install_options = do
      there ← reads (h.exists path)
      if there
          then (do
            cached ← queries h (h.getxattr path cache_hash_xattr)
            pure (
                compare (compute_cache_hash (from install_options image_digest source_imgref))
                  cached))
          else pure (invalid missing_file)
