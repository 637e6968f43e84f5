-- ===== src/Firmware.antt =====
-- crates/kit/src/libvirt/secureboot.rs: the search for firmware among QEMU's descriptors. The files
-- and the environment are a parameter, and so is the reading of a descriptor's JSON text.
pub mod Choice
pub mod Keys
pub mod Enrolled
use bcvk.Common.{
  String, Bool, true, false, not, ◌&&◌, Option, none, some, List, [], ◌∷◌, ◌++◌, any, ◌==◌,
  if◌then◌else◌, format, is_empty_text, rsplit_once, strip_prefix,
}
use bcvk.Common.Text.Paths.{join_path}
use bcvk.Result.{Result, ok, err, ◌>>=◌, ◌>>◌}

pub record FirmwareExecutable : Type 0 where
  pub filename : String
  pub format : String

pub record FirmwareNvramTemplate : Type 0 where
  pub filename : String
  pub format : String

pub record FirmwareMapping : Type 0 where
  pub device : String
  pub executable : Option FirmwareExecutable
  pub nvram_template : Option FirmwareNvramTemplate
  pub filename : Option String

pub record FirmwareTarget : Type 0 where
  pub architecture : String
  pub machines : List String

pub record FirmwareDescriptor : Type 0 where
  pub description : String
  pub interface_types : List String
  pub mapping : FirmwareMapping
  pub targets : List FirmwareTarget
  pub features : List String
  pub tags : List String

pub record FirmwareInfo : Type 0 where
  pub code_path : String
  pub code_format : String
  pub vars_path : String
  pub vars_format : String

-- `std::env::var_os`, and what `Utf8PathBuf::try_from` makes of it
pub data EnvVar : Type 0 where
  unset not_utf8 : EnvVar
  set : String → EnvVar

-- what a walk of a directory passes: its path below the directory, and its name
pub record WalkComponent : Type 0 where
  pub path : String
  pub file_name : String
  pub is_file : Bool
  pub is_utf8 : Bool

pub record Files : Type 0 where
  pub var_os : String → EnvVar
  -- `Dir::open_ambient_dir` of the root, and whether `open_dir_optional` gives a directory below it
  pub open_root : Result (Unit {0})
  pub open_dir_optional : String → Result Bool
  -- `dir.walk`, sorted by file name
  pub walk : String → List (Result WalkComponent)
  pub read_to_string : String → Result String
  -- `serde_json::from_str`
  pub from_str : String → Result FirmwareDescriptor
  pub exists : String → Bool

unfoldable pub supports_secure_boot : FirmwareDescriptor → Bool
supports_secure_boot d = any (λ f. f == "secure-boot") d.features

unfoldable pub has_enrolled_keys : FirmwareDescriptor → Bool
has_enrolled_keys d = any (λ f. f == "enrolled-keys") d.features

unfoldable pub supports_architecture : String → FirmwareDescriptor → Bool
supports_architecture arch d = any (λ t. t.architecture == arch) d.targets

-- `get_qemu_architecture`, for the architecture that the program was built for
unfoldable pub get_qemu_architecture : String → String
get_qemu_architecture host =
    if host == "powerpc64" then "ppc64" else if host == "powerpc64le" then "ppc64le" else host

abbrev qemu_firmware_dirs : List String
qemu_firmware_dirs = "/etc/qemu/firmware" ∷ "/usr/share/qemu/firmware" ∷ []

unfoldable user_dir : String → EnvVar → List String
user_dir below EnvVar.unset = []
user_dir below EnvVar.not_utf8 = []
user_dir below (EnvVar.set dir) = join_path dir below ∷ []

unfoldable user_dirs : EnvVar → EnvVar → List String
unfolding user_dir
user_dirs EnvVar.unset home = user_dir ".config/qemu/firmware" home
user_dirs config_home home = user_dir "qemu/firmware" config_home

module _ (files : Files) where
  unfoldable pub get_firmware_search_dirs : List String
  unfolding user_dirs
  get_firmware_search_dirs =
      user_dirs (files.var_os "XDG_CONFIG_HOME") (files.var_os "HOME") ++ qemu_firmware_dirs

  -- `Path::extension` is `json`
  unfoldable pub is_json : String → Bool
  is_json name = elim (rsplit_once "." name) [
    | none ↦ false
    | some parts ↦ not (is_empty_text parts.0) && parts.1 == "json"
  ]

  unfoldable pub on_component : String → WalkComponent → Result (List String)
  unfolding is_json
  on_component dir_path c =
      if not (c.is_file && is_json c.file_name)
      then ok []
      else if c.is_utf8
      then ok (join_path dir_path c.path ∷ [])
      else err (format ("Non-UTF8 path: " ∷ c.path ∷ []))

  unfoldable pub walked : String → List (Result WalkComponent) → Result (List String)
  unfolding on_component
  walked dir_path [] = ok []
  walked dir_path (err e ∷ rest) = err e
  walked dir_path (ok c ∷ rest) = do
    found ← on_component dir_path c
    more ← walked dir_path rest
    ok (found ++ more)

  unfoldable pub in_dirs : List String → Result (List String)
  unfolding walked
  in_dirs [] = ok []
  in_dirs (dir_path ∷ rest) = do
    let relative_path : String = elim (strip_prefix "/" dir_path) [ none ↦ dir_path | some p ↦ p ]
    there ← files.open_dir_optional relative_path
    found ← if there then walked dir_path (files.walk relative_path) else ok []
    more ← in_dirs rest
    ok (found ++ more)

  unfoldable pub list_firmware_descriptors : Result (List String)
  unfolding in_dirs get_firmware_search_dirs
  list_firmware_descriptors = files.open_root >> in_dirs get_firmware_search_dirs

  -- `map_err` with a report that ends in the error's
  abbrev reported : {A : Type 0} → List String → Result A → Result A
  reported message (ok a) = ok a
  reported message (err e) = err (format (message ++ e ∷ []))

  unfoldable pub load_firmware_descriptor : String → Result FirmwareDescriptor
  load_firmware_descriptor path = do
    content ←
        reported ("Failed to read firmware descriptor " ∷ path ∷ ": " ∷ [])
          (files.read_to_string path)
    reported ("Failed to parse firmware descriptor " ∷ path ∷ ": " ∷ []) (files.from_str content)

  -- the two files of a flash device, or what comes later
  unfoldable pub from_mapping :
      Option FirmwareExecutable
      → Option FirmwareNvramTemplate
      → Result FirmwareInfo
      → Result FirmwareInfo
  from_mapping (some executable) (some nvram_template) later = ok (record {
    code_path = executable.filename;
    code_format = executable.format;
    vars_path = nvram_template.filename;
    vars_format = nvram_template.format;
  })
  from_mapping (some executable) none later = later
  from_mapping none nvram_template later = later

  unfoldable pub consider :
      Bool → String → FirmwareDescriptor → Result FirmwareInfo → Result FirmwareInfo
  unfolding from_mapping
  consider require_secure_boot arch d later =
      if has_enrolled_keys d
      then later
      else if not (supports_architecture arch d)
      then later
      else if require_secure_boot && not (supports_secure_boot d)
      then later
      else if d.mapping.device == "memory"
      then later
      else from_mapping d.mapping.executable d.mapping.nvram_template later

  unfoldable pub first_suitable : Bool → String → List String → Result FirmwareInfo
  unfolding consider load_firmware_descriptor
  first_suitable require_secure_boot arch [] = err (
      format (
        "No suitable firmware descriptor found for architecture "
        ∷ arch
        ∷ " with secure_boot="
        ∷ (if require_secure_boot then "true" else "false")
        ∷ []))
  first_suitable require_secure_boot arch (descriptor_path ∷ rest) =
      let later = first_suitable require_secure_boot arch rest in
      load_firmware_descriptor descriptor_path >>= λ d. consider require_secure_boot arch d later

  module _ (host_arch : String) where
    unfoldable pub find_firmware_from_descriptors : Bool → Result FirmwareInfo
    unfolding first_suitable list_firmware_descriptors get_qemu_architecture
    find_firmware_from_descriptors require_secure_boot = do
      descriptors ← list_firmware_descriptors
      first_suitable require_secure_boot (get_qemu_architecture host_arch) descriptors

    missing : String → String
    missing path = format (
        "Firmware descriptor returned non-existent path: " ∷ path
        ∷ ". Please verify your QEMU firmware installation." ∷ [])

    unfoldable pub find_ovmf_vars : Result String
    unfolding find_firmware_from_descriptors missing
    find_ovmf_vars = do
      firmware_info ← find_firmware_from_descriptors false
      let vars_path : String = firmware_info.vars_path
      if files.exists vars_path then ok vars_path else err (missing vars_path)

    unfoldable pub find_secure_boot_firmware : Result FirmwareInfo
    unfolding find_firmware_from_descriptors missing
    find_secure_boot_firmware = do
      firmware_info ← find_firmware_from_descriptors true
      let code_path : String = firmware_info.code_path
      if files.exists code_path then ok firmware_info else err (missing code_path)
