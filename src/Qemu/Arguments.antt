-- ===== src/Qemu/Arguments.antt =====
-- crates/bcvk-qemu/src/qemu.rs: the arguments that `spawn` gives to QEMU.
use bcvk.Common.{
  ℕ, ◌+◌, String, List, [], ◌∷◌, ◌++◌, map, Option, none, some, Bool, ◌==◌, format, join,
  if◌then◌else◌, to_string,
}
use bcvk.Result.{Result, ok, ◌>>◌}
use bcvk.Qemu.{
  QemuConfig, BootMode, direct_boot, iso_boot, MachineType, auto, explicit, DisplayMode, headless,
  console, VirtiofsMount, VirtioBlkDevice, VirtioSerialOut, as_str, validate,
}

-- `MachineType::resolve`
unfoldable pub resolve : String → MachineType → Option String
resolve arch (explicit name) = some name
resolve arch auto =
    if arch == "x86_64"
    then some "q35"
    else if arch == "aarch64"
    then some "virt,gic-version=max"
    else if arch == "s390x"
    then some "s390-ccw-virtio"
    else if arch == "powerpc64"
    then some "pseries,kvm-type=HV,ic-mode=xics"
    else none

machine_args : Option String → List String
machine_args none = []
machine_args (some machine) = "-machine" ∷ machine ∷ []

-- the descriptors from the set after `idx` on
unfoldable pub fd_args : ℕ → List ℕ → List String
fd_args idx [] = []
fd_args idx (fd ∷ rest) =
    "-add-fd"
    ∷ format ("fd=" ∷ to_string (100 + idx) ∷ ",set=" ∷ to_string (idx + 1) ∷ [])
    ∷ fd_args (idx + 1) rest

drive_args : ℕ → List VirtioBlkDevice → List String
drive_args idx [] = []
drive_args idx (d ∷ rest) =
    let drive_id = format ("drive" ∷ to_string idx ∷ []) in
    "-drive"
    ∷ format (
        "file="
        ∷ d.disk_file
        ∷ ",format="
        ∷ as_str d.format
        ∷ ",if=none,id="
        ∷ drive_id
        ∷ (if d.readonly then ",readonly=on" else "")
        ∷ [])
    ∷ "-device"
    ∷ format ("virtio-blk-pci,drive=" ∷ drive_id ∷ ",serial=" ∷ d.serial ∷ [])
    ∷ drive_args (idx + 1) rest

boot_args : Option BootMode → List String
boot_args none = []
boot_args (some (iso_boot iso_path)) = "-cdrom" ∷ iso_path ∷ []
boot_args (some (direct_boot kernel_path initramfs_path kernel_cmdline virtiofs_socket)) =
    "-kernel"
    ∷ kernel_path
    ∷ "-initrd"
    ∷ initramfs_path
    ∷ "-chardev"
    ∷ format ("socket,id=char0,path=" ∷ virtiofs_socket ∷ [])
    ∷ "-device"
    ∷ "vhost-user-fs-pci,queue-size=1024,chardev=char0,tag=rootfs"
    ∷ "-append"
    ∷ join " " kernel_cmdline
    ∷ []

mount_args : ℕ → List VirtiofsMount → List String
mount_args idx [] = []
mount_args idx (m ∷ rest) =
    let char_id = format ("char" ∷ to_string (idx + 1) ∷ []) in
    "-chardev"
    ∷ format ("socket,id=" ∷ char_id ∷ ",path=" ∷ m.socket_path ∷ [])
    ∷ "-device"
    ∷ format ("vhost-user-fs-pci,queue-size=1024,chardev=" ∷ char_id ∷ ",tag=" ∷ m.tag ∷ [])
    ∷ mount_args (idx + 1) rest

serial_args : ℕ → List VirtioSerialOut → List String
serial_args idx [] = []
serial_args idx (d ∷ rest) =
    let char_id = format ("serial_char" ∷ to_string idx ∷ []) in
    "-chardev"
    ∷ format (
        "file,id="
        ∷ char_id
        ∷ ",path="
        ∷ d.output_file
        ∷ (if d.append then ",append=on" else "")
        ∷ [])
    ∷ "-device"
    ∷ format ("virtserialport,chardev=" ∷ char_id ∷ ",name=" ∷ d.name ∷ [])
    ∷ serial_args (idx + 1) rest

network_args : List String → List String
network_args hostfwd =
    "-netdev"
    ∷ join "," ("user" ∷ "id=net0" ∷ map (λ fwd. format ("hostfwd=" ∷ fwd ∷ [])) hostfwd)
    ∷ "-device"
    ∷ "virtio-net-pci,netdev=net0"
    ∷ []

serial_log_args : Option String → List String
serial_log_args none = "-serial" ∷ "none" ∷ []
serial_log_args (some path) = "-serial" ∷ format ("file:" ∷ path ∷ []) ∷ []

display_args : DisplayMode → List String
display_args headless = "-monitor" ∷ "none" ∷ []
display_args console =
    "-device" ∷ "virtconsole,chardev=console0" ∷ "-chardev" ∷ "stdio,id=console0,mux=on"
    ∷ "-monitor" ∷ "chardev:console0" ∷ []

vsock_args : Option ℕ → List String
vsock_args none = []
vsock_args (some guest_cid) =
    "-device"
    ∷ format ("vhost-vsock-pci,guest-cid=" ∷ to_string guest_cid ∷ ",vhostfd=42" ∷ [])
    ∷ []

credential_args : List String → List String
credential_args [] = []
credential_args (credential ∷ rest) =
    "-smbios" ∷ format ("type=11,value=" ∷ credential ∷ []) ∷ credential_args rest

fw_cfg_args : List (String × String) → List String
fw_cfg_args [] = []
fw_cfg_args ((name, file_path) ∷ rest) =
    "-fw_cfg" ∷ format ("name=" ∷ name ∷ ",file=" ∷ file_path ∷ []) ∷ fw_cfg_args rest

-- what comes before and after the descriptors
unfoldable pub args_before : String → QemuConfig → List String
unfolding resolve machine_args
args_before arch c =
    machine_args (resolve arch c.machine_type)
    ++ ("-m"
        ∷ format (to_string c.memory_mb ∷ "M" ∷ [])
        ∷ "-smp"
        ∷ to_string c.vcpus
        ∷ "-enable-kvm"
        ∷ "-cpu"
        ∷ "host"
        ∷ "-audio"
        ∷ "none"
        ∷ "-object"
        ∷ format ("memory-backend-memfd,id=mem,share=on,size=" ∷ to_string c.memory_mb ∷ "M" ∷ [])
        ∷ "-numa"
        ∷ "node,memdev=mem"
        ∷ [])
    ++ (if c.no_reboot then "-no-reboot" ∷ [] else [])

unfoldable pub args_after : QemuConfig → List String → Option ℕ → List String
unfolding drive_args boot_args mount_args serial_args network_args serial_log_args display_args
    vsock_args credential_args fw_cfg_args
args_after c extra_credentials vsock =
    drive_args 0 c.virtio_blk_devices
    ++ boot_args c.boot_mode
    ++ mount_args 0 c.additional_mounts
    ++ ("-device" ∷ "virtio-serial" ∷ [])
    ++ serial_args 0 c.virtio_serial_devices
    ++ network_args c.hostfwd
    ++ serial_log_args c.serial_log
    ++ ("-nographic" ∷ "-display" ∷ "none" ∷ [])
    ++ display_args c.display_mode
    ++ vsock_args vsock
    ++ credential_args c.smbios_credentials
    ++ credential_args extra_credentials
    ++ fw_cfg_args c.fw_cfg_entries

unfoldable pub command_args : String → QemuConfig → List String → Option ℕ → List String
unfolding args_before args_after
command_args arch c extra_credentials vsock =
    args_before arch c ++ fd_args 0 c.fdset ++ args_after c extra_credentials vsock

-- `spawn`, up to the start of the process
unfoldable pub spawn :
    (String → Bool) → String → QemuConfig → List String → Option ℕ → Result (List String)
unfolding command_args
spawn exists arch c extra_credentials vsock = do
  validate exists c
  ok (command_args arch c extra_credentials vsock)
