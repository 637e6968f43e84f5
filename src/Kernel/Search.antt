-- ===== src/Kernel/Search.antt =====
-- The search of crates/kit/src/kernel.rs through the root directory of an image.
use bcvk.Common.{
  String, Bool, false, not, ◌&&◌, Option, none, some, List, [], ◌∷◌, ◌++◌, map, length,
  if◌then◌else◌, format, join, to_string,
}
use bcvk.Result.{Result, ok, err, context, ◌>>=◌, ◌>>◌}
use bcvk.Kernel.{
  Dir, DirEntry, KernelInfo, KernelKind, aboot_kind, gather, is_aboot_name, is_dir, is_file,
  is_uki_file, traditional, uki,
}

module _ (root : Dir) where
  unfoldable pub artifact : String → KernelKind → List KernelInfo
  artifact path kind = record { kernel_path = path; initramfs_path = none; kind = kind } ∷ []

  unfoldable pub aboot_artifact : String → Result (List KernelInfo)
  unfolding artifact aboot_kind
  aboot_artifact name = do
    let path : String = format ("boot/" ∷ name ∷ [])
    magic ← context (root.read_magic path) (format ("reading header of boot/" ∷ name ∷ []))
    kind ← aboot_kind name magic
    ok (artifact path kind)

  unfoldable pub aboot_entry : DirEntry → Result (List KernelInfo)
  unfolding aboot_artifact is_aboot_name
  aboot_entry entry = do
    file_type ← entry.file_type
    if is_file file_type && (entry.is_utf8 && is_aboot_name entry.file_name)
        then aboot_artifact entry.file_name
        else ok []

  unfoldable pub find_aboot_artifacts : Result (List KernelInfo)
  unfolding aboot_entry gather
  find_aboot_artifacts = do
    there ← root.open_dir_optional "boot"
    if there then root.entries "boot" >>= gather aboot_entry else ok []

  unfoldable pub esp_entry : DirEntry → Result (List KernelInfo)
  unfolding artifact is_uki_file
  esp_entry entry = ok (
      if is_uki_file entry.file_name && entry.is_utf8
      then artifact (format ("boot/EFI/Linux/" ∷ entry.file_name ∷ [])) uki
      else [])

  unfoldable pub find_ukis_in_esp : Result (List KernelInfo)
  unfolding esp_entry gather
  find_ukis_in_esp = do
    boot ← root.open_dir_optional "boot"
    if not boot
        then ok []
        else root.open_dir_optional "boot/EFI/Linux" >>= λ efi_linux.
            if efi_linux then root.entries "boot/EFI/Linux" >>= gather esp_entry else ok []

  unfoldable pub open_modules_dir : Result Bool
  open_modules_dir = do
    usr_lib ← root.open_dir_optional "usr/lib"
    if usr_lib then root.open_dir_optional "usr/lib/modules" else ok false

  version_path : String → String
  version_path version = format ("usr/lib/modules/" ∷ version ∷ [])

  -- the two searches of the modules directory, by what is done in each version's directory
  unfoldable pub version_entry :
      (String → Result (List KernelInfo)) → DirEntry → Result (List KernelInfo)
  unfolding version_path
  version_entry f entry = do
    file_type ← entry.file_type
    if is_dir file_type && entry.is_utf8
        then context (root.open_dir (version_path entry.file_name))
            (format ("opening modules/" ∷ entry.file_name ∷ []))
          >> f entry.file_name
        else ok []

  unfoldable pub in_modules : (String → Result (List KernelInfo)) → Result (List KernelInfo)
  unfolding open_modules_dir version_entry gather
  in_modules f = do
    modules ← open_modules_dir
    if modules then root.entries "usr/lib/modules" >>= gather (version_entry f) else ok []

  uki_name : DirEntry → Result (List String)
  uki_name entry =
      if not (is_uki_file entry.file_name)
      then ok []
      else entry.file_type >>= λ file_type.
          ok (if is_file file_type && entry.is_utf8 then entry.file_name ∷ [] else [])

  unfoldable pub find_ukis_in_version_dir : String → Result (List String)
  unfolding uki_name gather version_path is_uki_file
  find_ukis_in_version_dir version = root.entries (version_path version) >>= gather uki_name

  unfoldable pub uki_in : String → String → KernelInfo
  uki_in version name = record {
    kernel_path = format ("usr/lib/modules/" ∷ version ∷ "/" ∷ name ∷ []);
    initramfs_path = none;
    kind = uki;
  }

  unfoldable pub ukis_of_version : String → Result (List KernelInfo)
  unfolding uki_in find_ukis_in_version_dir
  ukis_of_version version = do
    names ← find_ukis_in_version_dir version
    ok (map (uki_in version) names)

  unfoldable pub find_ukis_in_modules : Result (List KernelInfo)
  unfolding in_modules ukis_of_version
  find_ukis_in_modules = in_modules ukis_of_version

  abbrev pub vmlinuz : String → String
  vmlinuz version = format ("usr/lib/modules/" ∷ version ∷ "/vmlinuz" ∷ [])

  abbrev pub initramfs : String → String
  initramfs version = format ("usr/lib/modules/" ∷ version ∷ "/initramfs.img" ∷ [])

  unfoldable pub has_traditional_kernel : String → Bool
  has_traditional_kernel version = root.exists (vmlinuz version) && root.exists (initramfs version)

  unfoldable pub kernels_of_version : String → Result (List KernelInfo)
  unfolding has_traditional_kernel
  kernels_of_version version = ok (
      if has_traditional_kernel version
      then record {
        kernel_path = vmlinuz version;
        initramfs_path = some (initramfs version);
        kind = traditional;
      }
        ∷ []
      else [])

  unfoldable pub find_traditional_kernels_in_modules : Result (List KernelInfo)
  unfolding in_modules kernels_of_version
  find_traditional_kernels_in_modules = in_modules kernels_of_version

  -- one of a kind, or an error that names them
  unfoldable pub exactly_one : String → List KernelInfo → Result (Option KernelInfo)
  exactly_one what [] = ok none
  exactly_one what (k ∷ []) = ok (some k)
  exactly_one what (k ∷ l ∷ rest) =
      let found = k ∷ l ∷ rest in
      err (
        format (
          "Found "
          ∷ to_string (length found)
          ∷ " "
          ∷ what
          ∷ ", expected exactly one:\n  "
          ∷ join "\n  " (map (λ i. i.kernel_path) found)
          ∷ []))

  unfoldable pub or_else_find :
      String → List KernelInfo → Result (Option KernelInfo) → Result (Option KernelInfo)
  unfolding exactly_one
  or_else_find what [] later = later
  or_else_find what (k ∷ rest) later = exactly_one what (k ∷ rest)

  unfoldable pub find_ukis : Result (List KernelInfo)
  unfolding find_ukis_in_esp find_ukis_in_modules
  find_ukis = do
    in_esp ← find_ukis_in_esp
    in_modules ← find_ukis_in_modules
    ok (in_esp ++ in_modules)

  unfoldable pub find_kernel : Result (Option KernelInfo)
  unfolding or_else_find find_aboot_artifacts find_ukis find_traditional_kernels_in_modules
  find_kernel = do
    aboot ← find_aboot_artifacts
    or_else_find "aboot artifacts" aboot (do
      ukis ← find_ukis
      or_else_find "UKIs" ukis (do
        kernels ← find_traditional_kernels_in_modules
        exactly_one "traditional kernels" kernels))
