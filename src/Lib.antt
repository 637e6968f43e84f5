-- ===== src/Lib.antt =====
-- bcvk runs bootable container images as virtual machines. This library models the parts of it that
-- manage libvirt domains, their disks and their installation, and the configuration of QEMU and of
-- ephemeral machines.
--
-- Common: Boolean tests, lists over native numbers, and the text and path operations of Rust's
--   standard library. A whole number of w bits keeps its wrap-around as `% 2 ^ w`.
-- Result, Host, Host.Exec: an error report, the commands and system calls that the program makes
--   (a record of operations that every program takes as a parameter: virsh, the file system, qemu-
--   img, the XML reader, base64), and programs over them. A program takes the machine's state and
--   gives the result beside the state, an error as well as a value, so what was done before a
--   failure stays done. The state is a world, of which nothing is known but through the host's
--   operations, and a log of the calls that may change it, newest first.
-- Xml: crates/kit/src/xml_utils.rs, and `write_xml_node` of crates/kit/src/libvirt_upload_disk.rs.
--   A tree, its search, the parser over the reader's events, and the writer. Xml.Delivered: which
--   events the reader of the library delivers as they were written.
-- InstanceType: crates/kit/src/instancetypes.rs. Sizes: `parse_size` of crates/kit/src/utils.rs
--   and the unit conversions of crates/kit/src/libvirt/mod.rs.
-- DomainList: crates/kit/src/domain_list.rs and `run_virsh_xml` of crates/kit/src/libvirt/run.rs.
--   Domain: which virsh commands only ask.
-- Builder: crates/kit/src/libvirt/domain.rs. A domain's configuration, its methods, and
--   `build_xml`, whose document is the list of the events that the XML writer is called for
--   (Builder.Devices and Builder.Document are its parts); a failed `expect` is an error. Arch:
--   crates/kit/src/arch.rs.
-- Clock, Virsh, Readiness: crates/kit/src/libvirt/virsh.rs and `wait_for_readiness` of
--   crates/kit/src/utils.rs, over a clock in milliseconds that is a parameter, as a run of virsh and
--   the test are. The programs on domains take a whole run of virsh as one operation of their host.
-- Boot, Boot.Monitor: crates/kit/src/supervisor_status.rs, boot_progress.rs and status_monitor.rs.
--   What is written is given to a writer; the watcher of the file is a list of its events, each with
--   the world at that time.
-- Kernel: crates/kit/src/kernel.rs, over the operations of the image's root directory.
--   Credentials: crates/bcvk-qemu/src/credentials.rs, over base64.
-- Ephemeral.Podman, Ephemeral.Podman.Command: the command for podman that starts an ephemeral
--   machine, in crates/kit/src/run_ephemeral.rs. Its `run_detached` is what ToDiskHost takes for
--   the start of a machine. Ephemeral.Podman.Hint: crates/kit/src/podman_hint.rs.
-- Ephemeral, Ephemeral.DiskFiles: the value of `--log-dir`, a journal's line, the host's name
--   servers, the test for Ignition, and the disk files of `--mount-disk-file`, in
--   crates/kit/src/run_ephemeral.rs.
-- Firmware, Firmware.Keys: crates/kit/src/libvirt/secureboot.rs. The search for firmware among
--   QEMU's descriptors, over the files and the environment, and the enrolling of keys, over the
--   commands that are run.
-- Rm, RmAll, StartStop: crates/kit/src/libvirt/rm.rs, rm_all.rs, start.rs and stop.rs. They ask
--   the listing for the state and the disk of a domain, and change it by virsh and by removing
--   files.
-- Pool: the default storage pool, in crates/kit/src/libvirt/run.rs. RunOptions: the port mappings,
--   bind mounts and labels of the same file, and RunOptions.Names the choice of a domain's name.
-- ToDisk, ToDisk.Script, ToDisk.Command: crates/kit/src/to_disk.rs, over ToDiskHost, which has the
--   start of a machine, ssh and the quoting of shlex beside a host. Ephemeral.Options: the options
--   of crates/kit/src/run_ephemeral.rs that it gives. Storage: the container storage's path, of
--   crates/kit/src/utils.rs. BaseDisk.Install puts ToDisk under the base disks.
-- Run, with Run.Configuration, Mounts, Keys, Logs, Create and Command: the command of
--   crates/kit/src/libvirt/run.rs. RunHost is what it needs beside a host: podman, the making of
--   keys, ports, more of the file system, and the libraries for escaping, base64 and JSON. A step of
--   the creation takes the domain's builder and gives it back. The texts of errors leave out what
--   `{:?}` prints. Status: crates/kit/src/libvirt/status.rs.
-- Cache: crates/kit/src/cache_metadata.rs and install_options.rs. The JSON text and its hash are
--   one parameter, a function of the inputs.
-- BaseDisk, BaseDisk.Clone, BaseDisk.Prune: crates/kit/src/libvirt/base_disks.rs. The installation
--   to a disk is a parameter, a program, which ToDisk.Command.run fills.
-- Qemu, Qemu.Arguments, Qemu.Vsock: crates/bcvk-qemu/src/qemu.rs. The process, its pipes and the
--   daemons it needs are left out.
-- Tests: hosts, domains and configurations that the theorems are applied to.
--
-- The loops are recursion on the list that the code goes through; the search for a vsock id counts
-- down the 9998 candidates of the code's range. The loops that wait and the monitor's loop take a
-- number of rounds; what number is enough is proved. The search for a name takes a number of
-- rounds; one more than there are names that are taken is enough. The search for a port takes 100
-- random attempts, and then the 778 ports in their order.
-- Not modelled: what is printed and logged; when a temporary file of a new domain goes; what runs
-- in the container of an ephemeral machine, ssh, podman; `parse_memory_to_mb`, which works on
-- floating point numbers; and the build and test tools.
pub mod Common
pub mod Result
pub mod Ephemeral
pub mod Firmware
pub mod Host
pub mod Xml
pub mod InstanceType
pub mod Sizes
pub mod DomainList
pub mod Domain
pub mod Arch
pub mod Builder
pub mod Clock
pub mod Virsh
pub mod Readiness
pub mod Boot
pub mod Kernel
pub mod Credentials
pub mod Rm
pub mod RmAll
pub mod Run
pub mod RunOptions
pub mod Qemu
pub mod BaseDisk
pub mod Cache
pub mod Pool
pub mod StartStop
pub mod Status
pub mod Storage
pub mod ToDisk
pub mod Tests
