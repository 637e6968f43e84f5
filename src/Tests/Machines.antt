-- ===== src/Tests/Machines.antt =====
-- The theorems on the builder of domains, on waiting and on the status of a machine, applied.
use mathlib.Core.Option
use bcvk.Common.{
  ℕ, suc, ◌+◌, ◌≤◌, String, List, [], ◌∷◌, map, none, some, Bool, true, false, ◌&&◌, ◌≡◌, refl,
  arith, is_some, leb, if◌then◌else◌, eq_iff, contains, trim, ends_with, lines, split, strip_suffix,
  starts_with,
}
use bcvk.Result.{Result, ok, err, is_ok}
use bcvk.Host.{Output}
use bcvk.Tests.{printed, failed}
use bcvk.Xml.{Event, XmlNode, get, text_content, parse_xml_dom, find_with_namespace}
use bcvk.Xml.Delivered.{all_kept, is_kept, is_name}
use bcvk.Arch.{detect}
use bcvk.Builder.{DomainBuilder, uefi_secure, new_builder, with_name, with_metadata, with_firmware}
use bcvk.Builder.Document.{
  build_xml, domain_parts, loader_events, feature_events, secure_boot, element_name,
}
use bcvk.Builder.Metadata.{build_xml-metadata}
use bcvk.Builder.Calls.{Built, build_xml-succeeds}
use bcvk.Clock.{Clock, Sleeps}
use bcvk.Virsh.{output, is_transient_connect_failure, uses_session_daemon}
use bcvk.Virsh.Attempts.{output-within_20}
use bcvk.Virsh.Recovery.{Settled, output-recovers}
use bcvk.Readiness.{wait_for_readiness}
use bcvk.Readiness.Ready.{Timely, wait_for_readiness-ready}
use bcvk.Boot.{SupervisorStatus, new_status, waiting_for_systemd, monitor_boot_progress}
use bcvk.Boot.Refinement.{views, notifications, write_all, monitor_boot_progress-refines}
use bcvk.Boot.Monitor.{Printed, Arrival, create, monitor_and_stream_status}
use bcvk.Boot.Monitor.Ends.{RunningUpToLast, monitor_and_stream_status-ends}

abbrev same : String → String
same t = t

abbrev machine : DomainBuilder
machine = with_firmware uefi_secure (
    with_metadata "bootc:filesystem" "xfs"
      (with_metadata "source-image" "quay.io/image" (with_name "vm" new_builder)))

abbrev machine_built : Built machine
machine_built = Built.firmware uefi_secure (
    Built.metadata "bootc:filesystem" "xfs"
      (Built.metadata "source-image" "quay.io/image" (Built.name "vm" Built.new)))

abbrev events_of : Result (List Event) → List Event
events_of (ok es) = es
events_of (err e) = []

abbrev machine_events : List Event
machine_events = events_of (build_xml same 2 "id" "x86_64" machine)

build_xml-metadata_example :
    (dom : XmlNode) × (parse_xml_dom some (map ok machine_events) ≡ ok dom)
    × (Option.map text_content (find_with_namespace "source-image" dom) ≡ some "quay.io/image")
unfolding build_xml detect loader_events with_metadata get element_name starts_with all_kept is_kept
    is_name trim contains domain_parts bcvk.Builder.Devices.within bcvk.Xml.start_element
    bcvk.Common.concat bcvk.Xml.write_text_element bcvk.Xml.write_text_element_with_attrs
    bcvk.Common.to_string bcvk.Builder.Document.os_events bcvk.Xml.write_empty_element
    feature_events bcvk.Arch.cpu_mode bcvk.Arch.write_timers bcvk.Builder.Devices.device_events
    bcvk.Builder.Devices.network_events bcvk.Builder.Devices.console_events
    bcvk.Builder.Devices.each bcvk.Builder.Devices.tpm_events
    bcvk.Builder.Document.commandline_events bcvk.Builder.Devices.disk_events
    bcvk.Builder.Devices.filesystem_events bcvk.Builder.Devices.firmware_log_events
    bcvk.Builder.Devices.graphics_events bcvk.Builder.Devices.ignition_events
    bcvk.Builder.Devices.journal_events bcvk.Builder.Devices.named_network_events
    bcvk.Builder.Document.custom_loader bcvk.Builder.Document.insecure_boot
    bcvk.Builder.Document.metadata_events bcvk.Builder.Document.nvram_events secure_boot
    bcvk.Builder.Document.selected_loader bcvk.Builder.Document.uefi_loader
    bcvk.Builder.Document.use_uefi ends_with bcvk.Common.is_whitespace bcvk.Common.strip_prefix
    strip_suffix bcvk.Common.trim_end bcvk.Common.trim_start bcvk.Xml.end_element bcvk.Xml.insert
    bcvk.Xml.write_text
build_xml-metadata_example =
    build_xml-metadata some same (map ok) 2 "id" "x86_64" machine machine_events "source-image"
      "quay.io/image" (λ t. refl) (λ _. refl) refl
      (λ h. ground (arith, eq_iff "bootc:source-image" "bootc:container")) refl refl

build_xml-succeeds_example :
    is_ok (build_xml same 2 "id" "x86_64" machine)
    ≡ (is_some machine.name && is_ok (detect "x86_64"))
build_xml-succeeds_example = build_xml-succeeds same 2 "id" "x86_64" machine machine_built

-- a world that is its clock
abbrev ticks : Clock ℕ
ticks = record { now = λ w. w; sleep = λ d w. w + d }

abbrev ticks_Sleeps : Sleeps ticks
ticks_Sleeps = record { lasts = λ d w. omega arith }

abbrev restarting : Output
restarting =
    failed
      "error: failed to connect to the hypervisor\nerror: Failed to connect socket to '/run/libvirt-sock': No such file or directory\n"

-- virsh takes a tenth of a second, and fails to connect for thirty seconds
abbrev run : ℕ → Result Output × ℕ
run w = (ok (if leb 30000 w then printed "vm\n" else restarting), w + 100)

restarting_is_transient : is_transient_connect_failure restarting ≡ true
unfolding is_transient_connect_failure contains lines split strip_suffix ends_with
restarting_is_transient = refl

output-within_20_example : is_some (output ticks run 20 none none false 0).0 ≡ true
output-within_20_example =
    output-within_20 ticks run none none false 0 ticks_Sleeps (λ w. omega arith)

run_up : (w : ℕ) → 30000 ≤ w → Settled (run w).0
unfolding is_transient_connect_failure
run_up w h = ground arith

output-recovers_example :
    (r : Result Output) × ((output ticks run 20 none none false 0).0 ≡ some r) × Settled r
unfolding uses_session_daemon
output-recovers_example =
    output-recovers ticks run 100 30000 none none false 0 ticks_Sleeps (λ w. omega arith)
      (λ w. omega arith) run_up (omega arith) refl

-- a test that takes a tenth of a second, and holds from the third second on
abbrev probe : ℕ → Result Bool × ℕ
probe w = (ok (leb 3000 w), w + 100)

probe-Timely : Timely ticks probe 500 600 3000
probe-Timely = record {
  forward = λ w. omega arith;
  rests = λ w. omega arith;
  quick = λ w. omega arith;
  is_up = λ w h. ground arith;
}

wait_for_readiness-ready_example :
    (elapsed : ℕ) × ((wait_for_readiness ticks probe 10000 500 (suc 20) 7).0 ≡ some (ok elapsed))
wait_for_readiness-ready_example =
    wait_for_readiness-ready ticks probe 10000 500 600 3000 20 7 probe-Timely (omega arith)
      (omega arith) (omega arith)

-- a writer that keeps what it is given, the newest first
abbrev keep : SupervisorStatus → List SupervisorStatus → Result (Unit {0}) × List SupervisorStatus
keep s w = (ok tt, s ∷ w)

abbrev boot_lines : List String
boot_lines = "X_SYSTEMD_UNIT_ACTIVE=ssh-access.target" ∷ "STATUS=Starting" ∷ "READY=1" ∷ []

monitor_boot_progress-refines_example :
    monitor_boot_progress keep (map ok boot_lines) []
    ≡ write_all keep (new_status waiting_for_systemd ∷ views [] (notifications boot_lines)) []
monitor_boot_progress-refines_example = monitor_boot_progress-refines keep boot_lines []

-- a world that is the file's time and the status in it
abbrev status_file : Bool → ℕ → ℕ × SupervisorStatus
status_file running time = (time, record { state = none; ssh_access = false; running = running })

abbrev arrival : ℕ × SupervisorStatus → Arrival (ℕ × SupervisorStatus)
arrival w = record {
  event = ok (record { kind = create; paths = "/run/supervisor-status.json" ∷ [] });
  world = w;
}

abbrev arrivals : List (Arrival (ℕ × SupervisorStatus))
arrivals = arrival (status_file true 5) ∷ arrival (status_file false 6) ∷ []

monitor_and_stream_status-ends_example :
    (is_some
        (monitor_and_stream_status
          (λ p w. some (some w.0))
          (λ p w. ok w.1)
          "/run/supervisor-status.json"
          (λ s. Printed.printed)
          4
          (status_file true 4)
          arrivals).0
      ≡ true)
    × RunningUpToLast
        (monitor_and_stream_status
          (λ p w. some (some w.0))
          (λ p w. ok w.1)
          "/run/supervisor-status.json"
          (λ s. Printed.printed)
          4
          (status_file true 4)
          arrivals).1
monitor_and_stream_status-ends_example =
    monitor_and_stream_status-ends (λ p w. some (some w.0)) (λ p w. ok w.1)
      "/run/supervisor-status.json" (λ s. Printed.printed) 4 (status_file true 4) arrivals
      (omega arith)
