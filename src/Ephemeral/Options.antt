-- ===== src/Ephemeral/Options.antt =====
-- crates/kit/src/run_ephemeral.rs: the options of an ephemeral machine.
use bcvk.Common.{ℕ, String, Bool, false, Option, none, List, []}
use bcvk.InstanceType.{InstanceType}
use bcvk.Ephemeral.{LogDir}

pub data OutputMode : Type 0 where
  console journal : OutputMode

pub record CommonVmOpts : Type 0 where
  pub itype : Option InstanceType
  pub memory : String
  pub vcpus : Option ℕ
  pub console : Bool
  pub debug : Bool
  pub virtio_serial_out : List String
  pub execute : List String
  pub ssh_keygen : Bool
  pub virtiofsd_binary : Option String
  pub output : OutputMode
  pub log_dir : Option LogDir

-- `CommonVmOpts::default`, as it is derived
abbrev pub default_common_vm_opts : CommonVmOpts
default_common_vm_opts = record {
  itype = none;
  memory = "";
  vcpus = none;
  console = false;
  debug = false;
  virtio_serial_out = [];
  execute = [];
  ssh_keygen = false;
  virtiofsd_binary = none;
  output = OutputMode.console;
  log_dir = none;
}

pub record CommonPodmanOptions : Type 0 where
  pub tty : Bool
  pub interactive : Bool
  pub detach : Bool
  pub rm : Bool
  pub name : Option String
  pub network : Option String
  pub label : List String
  pub env : List String

pub record RunEphemeralOpts : Type 0 where
  pub image : String
  pub common : CommonVmOpts
  pub podman : CommonPodmanOptions
  pub debug_entrypoint : Option String
  pub bind_mounts : List String
  pub ro_bind_mounts : List String
  pub systemd_units_dir : Option String
  pub bind_storage_ro : Bool
  pub add_swap : Option String
  pub mount_disk_files : List String
  pub kernel_args : List String
  pub ignition_config : Option String
  pub host_dns_servers : Option (List String)
