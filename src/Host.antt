-- ===== src/Host.antt =====
-- What the program runs on: the commands and system calls that its code makes. They are not part
-- of the repository, so they are the fields of an interface, and the programs below are written
-- over any host. `log` holds, newest first, the calls that may change something.
pub mod Exec
pub mod Returns
pub mod Fails
use bcvk.Common.{String, Bool, Option, List, ℕ}
use bcvk.Result.{Result}
use bcvk.Xml.{Event}

-- `std::process::Output`; what is printed is text (virsh runs under LC_ALL=C)
pub record Output : Type 0 where
  pub success : Bool
  pub stdout : String
  pub stderr : String

-- `QemuImgInfo` of qemu_img.rs, the fields that are read
pub record QemuImgInfo : Type 0 where
  pub virtual_size : ℕ
  pub backing_filename : Option String
  pub full_backing_filename : Option String

-- what `NamedTempFile::persist` comes to, other errors aside
pub data Persisted : Type 0 where
  moved : Persisted
  already_exists : Persisted

pub record Host (W : Type 0) : Type 0 where
  -- `VirshCommand::new(connect_uri).args(args).output()`
  pub virsh : Option String → List String → W → Result Output × W
  -- `Path::exists`
  pub exists : String → W → Bool
  -- `std::fs::remove_file`
  pub remove_file : String → W → Result (Unit {0}) × W
  -- `qemu_img::info`
  pub image_info : String → W → Result QemuImgInfo
  -- the readable entries of `std::fs::read_dir`, by name
  pub read_dir : String → W → Result (List String)
  -- `Dir::getxattr` on the file at a path, opened through its parent directory
  pub getxattr : String → String → W → Result (Option String)
  -- `rustix::fs::fsetxattr`
  pub setxattr : String → String → String → W → Result (Unit {0}) × W
  -- `std::fs::create_dir_all`
  pub create_dir_all : String → W → Result (Unit {0}) × W
  -- `tempfile::Builder` with a prefix, a suffix and a directory: the new file's path
  pub create_temp : String → String → String → W → Result String × W
  -- writing a text to the file at a path
  pub write_file : String → String → W → Result (Unit {0}) × W
  -- `NamedTempFile::persist` from one path to another
  pub persist : String → String → W → Result Persisted × W
  -- `std::env::var(..).ok()`
  pub env : String → Option String
  -- libraries: the events of the XML reader for a text, the unescaping of a text's references, and
  -- base64 followed by a check for UTF-8
  pub read_events : String → List (Result Event)
  pub unescape : String → Option String
  pub decode_base64 : String → Option String

pub data Action : Type 0 where
  virsh : List String → Action
  remove_file : String → Action
  setxattr : String → String → Action
  create_dir_all : String → Action
  create_temp : String → Action
  write_file : String → Action
  persist : String → String → Action
  -- another program, with its arguments
  command : List String → Action

pub record Machine (W : Type 0) : Type 0 where
  pub world : W
  pub log : List Action
