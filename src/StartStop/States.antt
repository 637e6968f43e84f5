-- ===== src/StartStop/States.antt =====
-- What `bcvk libvirt start` and `stop` (crates/kit/src/libvirt/start.rs, stop.rs) do in each state.
use bcvk.Common.{
  String, [], ◌∷◌, Option, some, true, false, ◌==◌, ◌≡◌, ◌≢◌, eq_iff, arith, inl, inr, ◌⊎◌,
  Bool-cases, format, if◌then◌else◌,
}
use bcvk.Result.{ok, err}
use bcvk.Host.{Host, Machine, Output, Action}
use bcvk.Host.Exec.{Exec, virsh, ◌>>=◌, newest}
use bcvk.StartStop.{
  LibvirtStartOpts, LibvirtStopOpts, LibvirtSshOpts, login, state_of, after_start, start_stopped,
  start, stopping, stop_running, stop,
}
use bcvk.DomainList.{get_domain_state}

module _ {W : Type 0} (h : Host W) (uri : Option String) (opts : LibvirtStopOpts) (state : String)
    (s u t : Machine W) where
  stopped_running :
      get_domain_state h uri opts.name s ≡ (ok state, u)
      → (state == "running") ≡ true
      → stop h uri opts s ≡ (ok tt, t)
      → state ≡ "running" × newest t ≡ some (Action.virsh (stopping h uri opts))
  unfolding stop stop_running state_of virsh ◌>>=◌
  stopped_running q r e = ((eq_iff state "running").0 r, ground arith)

  stopped_already :
      get_domain_state h uri opts.name s ≡ (ok state, u)
      → (state == "running") ≡ false
      → stop h uri opts s ≡ (ok tt, t)
      → state ≢ "running" × t ≡ u
  unfolding stop state_of ◌>>=◌
  stopped_already q r e = (λ same. ground (arith, eq_iff state "running"), ground arith)

-- When `stop` returns without an error, either the domain was running and the newest call is
-- `destroy` with `--force` and `shutdown` without it, or it was not and the query of its state is
-- all that has happened.
pub stop-outcome :
    {W : Type 0} (h : Host W) (uri : Option String) (opts : LibvirtStopOpts) (state : String)
    (s u t : Machine W)
    → get_domain_state h uri opts.name s ≡ (ok state, u)
    → stop h uri opts s ≡ (ok tt, t)
    → (state ≡ "running" × newest t ≡ some (Action.virsh (stopping h uri opts)))
      ⊎ (state ≢ "running" × t ≡ u)
stop-outcome h uri opts state s u t q e = elim (Bool-cases (state == "running")) [
  | inl r ↦ inl (stopped_running h uri opts state s u t q r e)
  | inr r ↦ inr (stopped_already h uri opts state s u t q r e)
]

-- `start` of a domain that runs calls nothing after the query of its state but, with `--ssh`, the login.
pub start-running :
    {W : Type 0} (h : Host W) (uri : Option String) (ssh : LibvirtSshOpts → Exec W (Unit {0}))
    (opts : LibvirtStartOpts) (s u : Machine W)
    → get_domain_state h uri opts.name s ≡ (ok "running", u)
    → start h uri ssh opts s ≡ (if opts.ssh then ssh (login opts.name) u else (ok tt, u))
unfolding start after_start state_of ◌>>=◌
start-running h uri ssh opts s u q = ground arith

-- `start` of a domain in another state asks libvirt to start it, and logs in only where that
-- succeeded: otherwise it fails with what libvirt printed, and the login is not tried.
pub start-stopped :
    {W : Type 0} (h : Host W) (uri : Option String) (ssh : LibvirtSshOpts → Exec W (Unit {0}))
    (opts : LibvirtStartOpts) (state : String) (output : Output) (s u v : Machine W)
    → get_domain_state h uri opts.name s ≡ (ok state, u)
    → state ≢ "running"
    → virsh h uri ("start" ∷ opts.name ∷ []) u ≡ (ok output, v)
    → start h uri ssh opts s ≡ (
        if output.success
        then (if opts.ssh then ssh (login opts.name) v else (ok tt, v))
        else (err (format ("Failed to start VM '" ∷ opts.name ∷ "': " ∷ output.stderr ∷ [])), v))
unfolding start start_stopped after_start state_of ◌>>=◌
start-stopped h uri ssh opts state output s u v q ne e = ground (arith, eq_iff state "running")
