-- ===== src/Kernel.antt =====
-- crates/kit/src/kernel.rs: the kernel of a container image. The root directory is a parameter: what
-- its operations give for paths under it.
pub mod Search
use mathlib.Core.Option
use bcvk.Common.{
  ℕ, String, Bool, true, false, not, ◌&&◌, ◌||◌, Option, none, some, List, [], ◌∷◌, ◌++◌, map,
  length, ◌==◌, if◌then◌else◌, format, join, is_empty_text, starts_with, strip_prefix, rsplit_once,
  to_string,
}
use bcvk.Common.Text.Paths.{join_path}
use bcvk.Result.{Result, ok, err, context, ◌>>=◌, ◌>>◌}

pub data KernelKind : Type 0 where
  traditional uki android_boot : KernelKind

pub record KernelInfo : Type 0 where
  pub kernel_path : String
  pub initramfs_path : Option String
  pub kind : KernelKind

-- `cap_std::fs::FileType`
pub data FileType : Type 0 where
  file dir other : FileType

-- `cap_std::fs::DirEntry`; a name that is not UTF-8 is given as far as it can be shown.
pub record DirEntry : Type 0 where
  pub file_name : String
  pub is_utf8 : Bool
  pub file_type : Result FileType

-- `cap_std::fs::Dir`
pub record Dir : Type 0 where
  -- whether `open_dir_optional` gives a directory
  pub open_dir_optional : String → Result Bool
  pub open_dir : String → Result (Unit {0})
  pub entries : String → Result (List (Result DirEntry))
  pub exists : String → Bool
  -- the first eight bytes of a file
  pub read_magic : String → Result String

abbrev pub is_file : FileType → Bool
is_file file = true
is_file _ = false

abbrev pub is_dir : FileType → Bool
is_dir dir = true
is_dir _ = false

-- the loop over the entries of a directory, with what each of them adds
unfoldable pub gather :
    {A : Type 0} → (DirEntry → Result (List A)) → List (Result DirEntry) → Result (List A)
gather f [] = ok []
gather f (err e ∷ rest) = err e
gather f (ok entry ∷ rest) = do found ← f entry; more ← gather f rest; ok (found ++ more)

-- `Path::extension` is `efi`
unfoldable pub is_uki_file : String → Bool
is_uki_file name = elim (rsplit_once "." name) [
  | none ↦ false
  | some parts ↦ not (is_empty_text parts.0) && parts.1 == "efi"
]

-- the name of an aboot artifact: a version between `aboot-` and `.img`
unfoldable pub is_aboot_name : String → Bool
is_aboot_name name = elim (rsplit_once "." name) [
  | none ↦ false
  | some parts ↦ elim (strip_prefix "aboot-" parts.0) [
    | none ↦ false
    | some version ↦ not (is_empty_text version) && parts.1 == "img"
  ]
]

unfoldable pub aboot_kind : String → String → Result KernelKind
aboot_kind name magic =
    if magic == "ANDROID!"
    then ok android_boot
    else if starts_with "MZ" magic
    then ok uki
    else err (format ("Unsupported aboot artifact format: boot/" ∷ name ∷ []))

-- `with_root_prefix`
abbrev pub with_root_prefix : KernelInfo → String → KernelInfo
with_root_prefix info root = record {
  kernel_path = join_path root info.kernel_path;
  initramfs_path = Option.map (join_path root) info.initramfs_path;
  kind = info.kind;
}
