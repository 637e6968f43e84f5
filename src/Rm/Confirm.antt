-- ===== src/Rm/Confirm.antt =====
-- `bcvk libvirt rm` (crates/kit/src/libvirt/rm.rs) changes nothing before it is confirmed.
use bcvk.Common.{String, [], Option, false, ◌≡◌, All}
use bcvk.Host.{Host}
use bcvk.Host.Exec.{Keeps, keeps_rules, Logged}
use bcvk.Domain.{IsQuery}
use bcvk.DomainList.Listing.{virsh-queries, get_domain_state-queries, get_domain_info-queries}
use bcvk.Rm.{LibvirtRmOpts, is_domain_persistent, run}

module _ {W : Type 0} (h : Host W) (uri : Option String) where
  is_domain_persistent-queries :
      (n : String) → Keeps (Logged IsQuery) (is_domain_persistent h uri n)
  unfolding is_domain_persistent
  is_domain_persistent-queries n = search (keeps_rules, virsh-queries)

  unconfirmed :
      (opts : LibvirtRmOpts) → opts.force ≡ false → Keeps (Logged IsQuery) (run h uri opts)
  unfolding run
  unconfirmed opts e = rw e (
      search (
        keeps_rules, get_domain_state-queries, is_domain_persistent-queries,
        get_domain_info-queries,
      ))

-- Without `--force`, whatever the state of the domain and the other options, `bcvk libvirt rm` runs
-- no virsh subcommand but those that only ask, and removes no file.
pub run-unconfirmed :
    {W : Type 0} (h : Host W) (uri : Option String) (opts : LibvirtRmOpts) (w : W)
    → opts.force ≡ false
    → All IsQuery (run h uri opts (record { world = w; log = [] })).1.log
run-unconfirmed h uri opts w e =
    ((unconfirmed h uri opts e).kept (record { world = w; log = [] }) (record { calls = tt })).calls
