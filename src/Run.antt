-- ===== src/Run.antt =====
-- crates/kit/src/libvirt/run.rs: `bcvk libvirt run`. Run.Mounts is what a domain is given of the host,
-- Run.Keys its keys, Run.Logs its logs, Run.Create its creation, and Run.Command the command.
pub mod Configuration
pub mod Mounts
pub mod Keys
pub mod Logs
pub mod Create
pub mod Metadata
pub mod Defined
pub mod Command
pub mod Port
pub mod Outcome
use bcvk.Common.{
  ℕ, zero, suc, ◌+◌, String, Bool, true, false, not, ◌&&◌, ◌||◌, Option, none, some, List, [], ◌∷◌,
  ◌==◌, if◌then◌else◌, format, trim, is_empty_text, split_once, unwrap_or,
}
use bcvk.Common.Text.Paths.{join_path}
use bcvk.Result.{Result, ok, err, ensure, ok_or}
use bcvk.Host.{Host, Output, Action}
use bcvk.Host.Exec.{Exec, pure, fail, lift, reads, with_context, virsh, ◌>>=◌, ◌>>◌}
use bcvk.Xml.{Attributes, Event}
use bcvk.Builder.{FirmwareType}
use bcvk.Cache.{InstallOptions}
use bcvk.InstanceType.{InstanceType, vcpus, memory_mb}
use bcvk.RunOptions.{PortMapping, BindMount}
use bcvk.Ephemeral.{LogDir}
use bcvk.Storage.{StorageHost, is_directory}
use bcvk.Firmware.{Files}
use bcvk.Firmware.Keys.{CommandOutput}

-- the options that are read; the caller's metadata is in the order of its map
pub record LibvirtRunOpts : Type 0 where
  pub image : String
  pub name : Option String
  pub replace : Bool
  pub itype : Option InstanceType
  pub memory : String
  pub cpus : ℕ
  pub disk_size : String
  pub install : InstallOptions
  pub port_mappings : List PortMapping
  pub raw_volumes : List String
  pub bind_mounts : List BindMount
  pub bind_mounts_ro : List BindMount
  pub network : String
  pub ssh : Bool
  pub ssh_wait : Bool
  pub bind_storage_ro : Bool
  pub update_from_host : Bool
  pub firmware : FirmwareType
  pub disable_tpm : Bool
  pub firmware_log : Bool
  pub secure_boot_keys : Option String
  pub label : List String
  pub graphical_console : Bool
  pub transient : Bool
  pub ignition_config : Option String
  pub virtiofsd_binary : Option String
  pub console_log : Option String
  pub platform_console_log : Option String
  pub metadata : Attributes
  pub extra_smbios_credentials : List String
  pub log_dir : Option LogDir

-- What the command runs on, beside a host: libraries, the parts of the repository that run other
-- programs, and the architecture that the program was built for.
pub record RunHost (W : Type 0) : Type 0 where
  pub host : Host W
  pub arch : String
  pub is_dir : String → W → Bool
  pub try_exists : String → W → Result Bool
  -- whether `TcpListener::bind` to the port of 127.0.0.1 succeeds
  pub can_bind : ℕ → W → Bool
  -- `rng.random_range`
  pub random_range : ℕ → ℕ → W → ℕ × W
  -- `tempfile::tempdir`, and `generate_ssh_keypair` in it: the files of the private and the public key
  pub tempdir : W → Result String × W
  pub generate_ssh_keypair : String → String → W → Result (String × String) × W
  pub read_to_string : String → W → Result String
  pub copy : String → String → W → Result (Unit {0}) × W
  pub canonicalize : String → W → Result String
  -- `OpenOptions` that create a file and do not empty one
  pub open_or_create : String → W → Result (Unit {0}) × W
  -- base64
  pub encode : String → String
  -- `parse_memory_to_mb`, which works on floating point numbers
  pub parse_memory_to_mb : String → Result ℕ
  -- `podman` with its arguments, and the `store.graphRoot` in what it prints
  pub podman : List String → W → Result Output
  pub graph_root : String → Result (Option String)
  pub labels : String → Result (String → Option String)
  -- the digest that `images::inspect` gives
  pub inspect : String → W → Result String
  -- commands and files for the keys of secure boot
  pub command : List String → W → Result CommandOutput × W
  pub files : W → Files
  -- the XML writer: its escaping, the number of processors and a new UUID, and its text
  pub escape : String → String
  pub default_vcpus : ℕ
  pub new_uuid : String
  pub document : List Event → String
  -- the units of crates/kit/src/units that stream the journal
  pub journal_stream_unit : String
  pub journal_stream_initrd_unit : String

abbrev pub storage_host : {W : Type 0} → RunHost W → StorageHost W
storage_host r = record {
  exists = r.host.exists;
  is_dir = r.is_dir;
  podman = r.podman;
  graph_root = r.graph_root;
}

module _ {W : Type 0} (r : RunHost W) where
  -- `resolved_memory_mb` and `resolved_cpus`
  unfoldable pub resolved_memory_mb : LibvirtRunOpts → Result ℕ
  resolved_memory_mb opts = elim opts.itype [
    | some itype ↦ ok (memory_mb itype)
    | none ↦ r.parse_memory_to_mb opts.memory
  ]

  unfoldable pub resolved_cpus : LibvirtRunOpts → ℕ
  resolved_cpus opts = elim opts.itype [ some itype ↦ vcpus itype | none ↦ opts.cpus ]

  unfoldable pub run_virsh_cmd : Option String → List String → String → Exec W (Unit {0})
  run_virsh_cmd connect_uri args err_msg = do
    output ← with_context (virsh r.host connect_uri args) "Failed to run virsh command"
    if not output.success then fail (format (err_msg ∷ ": " ∷ output.stderr ∷ [])) else pure tt

  unfoldable pub random_range : Exec W ℕ
  random_range s =
      let (port, w) = r.random_range 2222 3000 s.world in (ok port, record s { world = w })

  unfoldable pub sequential_port : ℕ → ℕ → Exec W ℕ
  sequential_port zero port = pure 2222
  sequential_port (suc left) port = do
    free ← reads (r.can_bind port)
    if free then pure port else sequential_port left (suc port)

  -- so many random attempts, and then the ports in their order
  unfoldable pub find_port : ℕ → Exec W ℕ
  unfolding random_range sequential_port
  find_port zero = sequential_port 778 2222
  find_port (suc attempts) = do
    port ← random_range
    free ← reads (r.can_bind port)
    if free then pure port else find_port attempts

  unfoldable pub find_available_ssh_port : Exec W ℕ
  unfolding find_port
  find_available_ssh_port = find_port 100

  unfoldable pub parse_volume_mount : String → Exec W (String × String)
  parse_volume_mount volume_str = do
    parts ← lift (
        ok_or (split_once ":" volume_str) (
          format
            ("Invalid volume format '" ∷ volume_str ∷ "'. Expected format: host_path:tag" ∷ [])))
    let host_path : String = trim parts.0
    let tag : String = trim parts.1
    lift (
        ensure (not (is_empty_text host_path || is_empty_text tag)) (
          format (
            "Invalid volume format '" ∷ volume_str ∷ "'. Both host path and tag must be non-empty"
            ∷ [])))
    is_directory (storage_host r) host_path
        (format ("Host path '" ∷ host_path ∷ "' does not exist" ∷ []))
        (format ("Host path '" ∷ host_path ∷ "' is not a directory" ∷ []))
    pure (host_path, tag)
