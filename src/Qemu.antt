-- ===== src/Qemu.antt =====
-- crates/bcvk-qemu/src/qemu.rs: the configuration of a virtual machine, its validation, and the
-- arguments that QEMU is started with. File descriptors are numbers; the pipes, the process and what
-- is logged are left out. `arch` is `std::env::consts::ARCH` and `exists` is `Path::exists`.
pub mod Bounds
pub mod Vsock
pub mod Fds
pub mod Arguments
use bcvk.Common.{
  ℕ, zero, suc, ◌+◌, ◌*◌, String, List, [], ◌∷◌, ◌++◌, Option, none, some, Bool, true, false, not,
  ◌==◌, ◌||◌, format, join, if◌then◌else◌, ltb, eqb, to_string, is_empty_text, is_some, length,
  unwrap_or,
}
use bcvk.Common.Text.Paths.{parent}
use bcvk.Result.{Result, ok, err, ensure, ◌>>=◌, ◌>>◌}

pub record VirtiofsMount : Type 0 where
  pub socket_path : String
  pub tag : String

pub record VirtioSerialOut : Type 0 where
  pub name : String
  pub output_file : String
  pub append : Bool

pub data DiskFormat : Type 0 where
  raw : DiskFormat
  qcow2 : DiskFormat

abbrev pub as_str : DiskFormat → String
as_str raw = "raw"
as_str qcow2 = "qcow2"

pub record VirtioBlkDevice : Type 0 where
  pub disk_file : String
  pub serial : String
  pub format : DiskFormat
  pub readonly : Bool

pub data DisplayMode : Type 0 where
  headless : DisplayMode
  console : DisplayMode

pub data MachineType : Type 0 where
  auto : MachineType
  explicit : String → MachineType

pub data BootMode : Type 0 where
  direct_boot :
      (kernel_path initramfs_path : String) (kernel_cmdline : List String)
      (virtiofs_socket : String)
      → BootMode
  iso_boot : (iso_path : String) → BootMode

-- `QemuConfig`: `main_virtiofs` is the socket of `main_virtiofs_config`, and the resource limits and
-- the daemons to be spawned, which do not reach QEMU's arguments, are left out.
pub record QemuConfig : Type 0 where
  pub memory_mb : ℕ
  pub vcpus : ℕ
  pub machine_type : MachineType
  pub boot_mode : Option BootMode
  pub main_virtiofs : Option String
  pub fdset : List ℕ
  pub additional_mounts : List VirtiofsMount
  pub virtio_serial_devices : List VirtioSerialOut
  pub virtio_blk_devices : List VirtioBlkDevice
  pub display_mode : DisplayMode
  pub hostfwd : List String
  pub enable_console : Bool
  pub smbios_credentials : List String
  pub serial_log : Option String
  pub no_reboot : Bool
  pub fw_cfg_entries : List (String × String)

-- `Default::default()`, with the first three fields of the two constructors
base_config : ℕ → ℕ → Option BootMode → QemuConfig
base_config memory_mb vcpus boot_mode = record {
  memory_mb = memory_mb;
  vcpus = vcpus;
  machine_type = auto;
  boot_mode = boot_mode;
  main_virtiofs = none;
  fdset = [];
  additional_mounts = [];
  virtio_serial_devices = [];
  virtio_blk_devices = [];
  display_mode = headless;
  hostfwd = [];
  enable_console = false;
  smbios_credentials = [];
  serial_log = none;
  no_reboot = false;
  fw_cfg_entries = [];
}

unfoldable pub new_direct_boot : ℕ → ℕ → String → String → String → QemuConfig
unfolding base_config
new_direct_boot memory_mb vcpus kernel_path initramfs_path virtiofs_socket =
    base_config memory_mb vcpus (some (direct_boot kernel_path initramfs_path [] virtiofs_socket))

unfoldable pub new_iso_boot : ℕ → ℕ → String → QemuConfig
unfolding base_config
new_iso_boot memory_mb vcpus iso_path = base_config memory_mb vcpus (some (iso_boot iso_path))

with_cmdline : List String → Option BootMode → Option BootMode
with_cmdline cmdline (some (direct_boot kernel initramfs _ socket)) =
    some (direct_boot kernel initramfs cmdline socket)
with_cmdline cmdline (some (iso_boot iso_path)) = some (iso_boot iso_path)
with_cmdline cmdline none = none

unfoldable pub set_kernel_cmdline : List String → QemuConfig → QemuConfig
unfolding with_cmdline
set_kernel_cmdline cmdline c = record c { boot_mode = with_cmdline cmdline c.boot_mode }

unfoldable pub set_console : Bool → QemuConfig → QemuConfig
set_console enable c = record c {
  enable_console = enable;
  display_mode = if enable then console else c.display_mode;
}

unfoldable pub add_virtio_blk_device_ro :
    String → String → DiskFormat → Bool → QemuConfig → QemuConfig
add_virtio_blk_device_ro disk_file serial f readonly c = record c {
  virtio_blk_devices =
      c.virtio_blk_devices
      ++ record { disk_file = disk_file; serial = serial; format = f; readonly = readonly } ∷ [];
}

unfoldable pub add_virtio_serial_out : String → String → Bool → QemuConfig → QemuConfig
add_virtio_serial_out name output_file append c = record c {
  virtio_serial_devices =
      c.virtio_serial_devices
      ++ record { name = name; output_file = output_file; append = append } ∷ [];
}

-- the name that QEMU knows the descriptor by, and the configuration with it
unfoldable pub add_fd : ℕ → QemuConfig → String × QemuConfig
add_fd fd c =
    let fdset = c.fdset ++ fd ∷ [] in
    (format ("/dev/fdset/" ∷ to_string (length fdset) ∷ []), record c { fdset = fdset })

unfoldable pub enable_ssh_access : Option ℕ → QemuConfig → QemuConfig
enable_ssh_access host_port c = record c {
  hostfwd = format ("tcp::" ∷ to_string (unwrap_or host_port 2222) ∷ "-:22" ∷ []) ∷ [];
}

unfoldable pub add_systemd_credential_file : String → String → QemuConfig → QemuConfig
add_systemd_credential_file credential_name file_path c = record c {
  fw_cfg_entries =
      c.fw_cfg_entries
      ++ (format ("opt/io.systemd.credentials/" ∷ credential_name ∷ []), file_path) ∷ [];
}

module _ (exists : String → Bool) where
  unfoldable pub check_boot : Option BootMode → Option String → Result (Unit {0})
  check_boot none main = ok tt
  check_boot (some (iso_boot iso_path)) main = do
    ensure (not (is_empty_text iso_path)) "ISO path cannot be empty"
    ensure (exists iso_path) (format ("ISO image not found: " ∷ iso_path ∷ []))
    ensure (not (is_some main))
        "main_virtiofs_config is not supported with ISO boot (the root filesystem comes from the ISO)"
  check_boot (some (direct_boot kernel_path initramfs_path _ _)) main = do
    ensure (not (is_empty_text kernel_path)) "Kernel path cannot be empty"
    ensure (not (is_empty_text initramfs_path)) "Initramfs path cannot be empty"

  unfoldable pub check_mounts : List VirtiofsMount → Result (Unit {0})
  check_mounts [] = ok tt
  check_mounts (mount ∷ rest) = do
    ensure (not (is_empty_text mount.tag)) "Virtiofs mount tag cannot be empty"
    ensure (not (is_empty_text mount.socket_path || mount.socket_path == "/"))
        (format ("Invalid virtiofs socket path: " ∷ mount.socket_path ∷ []))
    ensure (exists (parent mount.socket_path))
        (format ("Virtiofs socket directory does not exist: " ∷ parent mount.socket_path ∷ []))
    check_mounts rest

  unfoldable pub validate : QemuConfig → Result (Unit {0})
  unfolding check_boot check_mounts
  validate c = do
    ensure (not (ltb c.memory_mb 128))
        (format ("Memory too low: " ∷ to_string c.memory_mb ∷ "MB (minimum 128MB)" ∷ []))
    ensure (not (ltb (1024 * 1024) c.memory_mb))
        (format ("Memory too high: " ∷ to_string c.memory_mb ∷ "MB (maximum 1TB)" ∷ []))
    ensure (not (eqb c.vcpus 0)) "vCPU count must be at least 1"
    ensure (not (ltb 256 c.vcpus))
        (format ("vCPU count too high: " ∷ to_string c.vcpus ∷ " (maximum 256)" ∷ []))
    check_boot c.boot_mode c.main_virtiofs
    check_mounts c.additional_mounts
