-- ===== src/Ephemeral/Podman.antt =====
-- crates/kit/src/run_ephemeral.rs: the arguments that podman is given for an ephemeral machine.
pub mod Hint
pub mod Command
pub mod Mounts
use bcvk.Common.{
  String, Bool, true, false, Option, none, some, List, [], ◌∷◌, ◌++◌, map, if◌then◌else◌, format,
  join, split_once, unwrap_or, is_empty,
}
use bcvk.Common.Text.Paths.{file_name}
use bcvk.Ephemeral.DiskFiles.{Format, raw, qcow2}
use bcvk.Ephemeral.Options.{CommonPodmanOptions}

-- a directory of the host, the name it is mounted by, and whether it is read-only
abbrev pub HostMount : Type 0
HostMount = String × String × Bool

-- `HOST_PATH[:NAME]`
unfoldable pub parse_mount : Bool → String → HostMount
parse_mount is_readonly mount_spec = elim (split_once ":" mount_spec) [
  | some parts ↦ (parts.0, parts.1, is_readonly)
  | none ↦ (mount_spec, unwrap_or (file_name mount_spec) "mount", is_readonly)
]

unfoldable pub mount_spec : HostMount → String
mount_spec (host_path, mount_name, is_readonly) =
    if is_readonly
    then format (host_path ∷ ":/run/host-mounts/" ∷ mount_name ∷ ":ro" ∷ [])
    else format (host_path ∷ ":/run/host-mounts/" ∷ mount_name ∷ [])

-- "-v" with each of the specifications
abbrev pub volumes : List String → List String
volumes [] = []
volumes (spec ∷ rest) = "-v" ∷ spec ∷ volumes rest

abbrev given : Bool → String → List String
given true flag = flag ∷ []
given false flag = []

abbrev valued : String → Option String → List String
valued flag none = []
valued flag (some value) = flag ∷ value ∷ []

unfoldable pub container_args : CommonPodmanOptions → List String
container_args podman =
    ("run" ∷ "--pull=never" ∷ "--label=bcvk.ephemeral=1" ∷ [])
    ++ (map (λ l. format ("--label=" ∷ l ∷ [])) podman.label
        ++ ("--mount=type=tmpfs,target=/run" ∷ valued "--name" podman.name
            ++ (valued "--network" podman.network
                ++ (given podman.rm "--rm"
                    ++ (given podman.tty "-t"
                        ++ (given podman.interactive "-i"
                            ++ (given podman.detach "-d"
                                ++ map (λ e. format ("--env=" ∷ e ∷ [])) podman.env)))))))

-- what every machine needs; the vsock device, where there is one
unfoldable pub sandbox_args : Bool → String → String → String → List String
sandbox_args vhost_vsock entrypoint_path self_exe image =
    ("--cap-add=all" ∷ "--security-opt=label=disable" ∷ "--security-opt=seccomp=unconfined"
      ∷ "--security-opt=unmask=/proc/*" ∷ "--group-add=keep-groups" ∷ "-v" ∷ "/sys:/sys:ro" ∷ "-v"
      ∷ "/var/tmp:/var/tmp" ∷ "--device=/dev/kvm" ∷ [])
    ++ (given vhost_vsock "--device=/dev/vhost-vsock"
        ++ ("-v"
            ∷ "/usr:/run/tmproot/usr:ro"
            ∷ "-v"
            ∷ "/etc/ld.so.cache:/run/tmproot/etc/ld.so.cache:ro"
            ∷ "-v"
            ∷ format (entrypoint_path ∷ ":/var/lib/bcvk/entrypoint" ∷ [])
            ∷ "-v"
            ∷ format (self_exe ∷ ":/run/selfexe:ro" ∷ [])
            ∷ "--stop-signal=SIGKILL"
            ∷ format
                ("--mount=type=image,source=" ∷ image ∷ ",target=/run/source-image,rw=true" ∷ [])
            ∷ []))

unfoldable pub disk_args : List (String × String × Format) → List String
disk_args disks =
    volumes (map (λ d. format (d.0 ∷ ":" ∷ "/run/disk-files/" ∷ d.1 ∷ ":rw" ∷ [])) disks)

unfoldable pub units_args : Option String → List String
units_args none = []
units_args (some units_dir) = "-v" ∷ format (units_dir ∷ ":/run/systemd-units:ro" ∷ []) ∷ []

abbrev pub each_dns : List String → List String
each_dns [] = []
each_dns (server ∷ rest) = "--dns" ∷ server ∷ each_dns rest

unfoldable pub dns_args : Option (List String) → List String
dns_args none = []
dns_args (some servers) = each_dns servers

abbrev format_name : Format → String
format_name raw = "raw"
format_name qcow2 = "qcow2"

unfoldable pub disk_env : List (String × String × Format) → List String
disk_env disks =
    if is_empty disks
    then []
    else "-e"
      ∷ format (
          "BOOTC_DISK_FILES="
          ∷ join "," (
              map (λ d. format ("/run/disk-files/" ∷ d.1 ∷ ":" ∷ d.1 ∷ ":" ∷ format_name d.2 ∷ []))
                disks)
          ∷ [])
      ∷ []
