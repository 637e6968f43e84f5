-- ===== src/Tests/Removal.antt =====
-- The theorems on starting, stopping and removing domains, applied.
use bcvk.Common.{String, none, some, true, false, ◌≡◌, refl, All}
use bcvk.Result.{ok}
use bcvk.Host.{Host, Machine}
use bcvk.Host.Exec.{newest, Logged, virsh, ◌>>=◌}
use bcvk.Domain.{IsQuery}
use bcvk.Tests.{host, begin, domain, printed}
use bcvk.Rm.{LibvirtRmOpts}
use bcvk.Rm
use bcvk.Rm.Outcome.{removing_call, remove_vm_impl-removes}
use bcvk.Rm.Confirm.{run-unconfirmed}
use bcvk.RmAll.{LibvirtRmAllOpts, Counts, remove_each, remove_one}
use bcvk.RmAll
use bcvk.RmAll.Safety.{run-unforced}

abbrev done : Host (Unit {0})
done = host (ok (printed "running")) true

abbrev removed : Machine (Unit {0})
removed = (Rm.remove_vm_impl done none "web" "running" false (domain "running" none) true begin).1

remove_vm_impl-removes_example : newest removed ≡ some (removing_call "web" "running" false)
unfolding Rm.remove_vm_impl Rm.destroy virsh ◌>>=◌
remove_vm_impl-removes_example =
    remove_vm_impl-removes done none "web" "running" false (domain "running" none) true begin
      removed refl

abbrev rm_opts : LibvirtRmOpts
rm_opts = record { name = "web"; force = false; stop = true }

run-unconfirmed_example : All IsQuery (Rm.run done none rm_opts begin).1.log
run-unconfirmed_example = run-unconfirmed done none rm_opts tt refl

abbrev all_opts : LibvirtRmAllOpts
all_opts = record { force = false; stop = true; label = none }

run-unforced_example : Logged IsQuery (RmAll.run done none all_opts begin).1
run-unforced_example = run-unforced done none all_opts begin refl (record { calls = tt })

abbrev running : String
running = "running"
