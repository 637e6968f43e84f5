-- ===== src/ToDisk.antt =====
-- crates/kit/src/to_disk.rs: the installation of an image to a disk. ToDisk.Script is the script that
-- runs in the machine, and ToDisk.Command the command.
pub mod Script
pub mod Command
pub mod DryRun
pub mod Outcome
pub mod Again
pub mod Target
use bcvk.Common.{ℕ, ◌*◌, ◌%◌, ◌^◌, String, Bool, Option, none, some, List, if◌then◌else◌, leb}
use bcvk.Result.{Result, ok, ◌>>=◌}
use bcvk.Host.{Host, Output}
use bcvk.Host.Exec.{Exec}
use bcvk.Cache.{InstallOptions}
use bcvk.Sizes.{parse_size}
use bcvk.Storage.{StorageHost}
use bcvk.Ephemeral.DiskFiles.{Format, raw, qcow2}
use bcvk.Ephemeral.Options.{CommonVmOpts, RunEphemeralOpts}

-- `Format::as_str`
abbrev pub as_str : Format → String
as_str raw = "raw"
as_str qcow2 = "qcow2"

pub record ToDiskAdditionalOpts : Type 0 where
  pub disk_size : Option String
  pub format : Format
  pub common : CommonVmOpts
  pub install_log : Option String
  pub label : List String
  pub dry_run : Bool
  pub bootc_install_podman_args : List String

pub record ToDiskOpts : Type 0 where
  pub source_image : String
  pub target_disk : String
  pub install : InstallOptions
  pub additional : ToDiskAdditionalOpts

pub data RunOutcome : Type 0 where
  created cached dry_run_would_reuse dry_run_would_regenerate : RunOutcome

-- the fields that are read of what `images::inspect` gives
pub record ImageInspect : Type 0 where
  pub digest : String
  pub size : ℕ

-- What the command runs on, beside a host: more of the file system, libraries, and the parts of the
-- repository that start a machine and connect to it.
pub record ToDiskHost (W : Type 0) : Type 0 where
  pub host : Host W
  pub storage : StorageHost W
  pub inspect : String → W → Result ImageInspect
  -- `File::create`, `File::set_len`, and the opening of a file for writing
  pub create_file : String → W → Result (Unit {0}) × W
  pub set_len : String → ℕ → W → Result (Unit {0}) × W
  pub open_write : String → W → Result (Unit {0})
  pub tempdir : W → Result String × W
  -- a program with its arguments
  pub command : List String → W → Result Output × W
  -- whether the standard output is a terminal
  pub is_terminal : Bool
  -- shlex
  pub try_quote : String → Result String
  -- units/bcvk-to-disk.target
  pub to_disk_target : String
  -- a detached machine's container, by its name; a wait for ssh; and a command by ssh, on a terminal
  -- or not: whether it succeeds
  pub run_detached : RunEphemeralOpts → Exec W String
  pub wait_for_ssh_ready : String → Exec W (Unit {0})
  pub connect : String → List String → Bool → Exec W Bool

-- the size of the disk, from the size of the image; what is asked for comes first
unfoldable pub calculate_disk_size : Result ℕ → ToDiskOpts → Result ℕ
calculate_disk_size image_size opts = elim opts.additional.disk_size [
  | some size_str ↦ parse_size size_str
  | none ↦ image_size >>= λ size.
      let min_4gb : ℕ = 4294967296 in
      let doubled : ℕ = (size * 2) % 2 ^ 64 in ok (if leb doubled min_4gb then min_4gb else doubled)
]
