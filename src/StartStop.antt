-- ===== src/StartStop.antt =====
-- crates/kit/src/libvirt/start.rs and stop.rs: `bcvk libvirt start` and `bcvk libvirt stop`. What is
-- printed is left out; the login after a start is the ssh command, a parameter.
pub mod States
use bcvk.Common.{
  ℕ, String, List, [], ◌∷◌, Option, Bool, true, false, not, ◌==◌, format, if◌then◌else◌,
}
use bcvk.Result.{Result, ok, err}
use bcvk.Host.{Host, Output}
use bcvk.Host.Exec.{Exec, pure, fail, with_context, attempt, virsh, ◌>>=◌, ◌>>◌}
use bcvk.DomainList.{get_domain_state}

-- `LibvirtStartOpts`
pub record LibvirtStartOpts : Type 0 where
  pub name : String
  pub ssh : Bool

-- `LibvirtStopOpts`
pub record LibvirtStopOpts : Type 0 where
  pub name : String
  pub force : Bool
  pub timeout : ℕ

-- the fields of `LibvirtSshOpts` that `start` sets
pub record LibvirtSshOpts : Type 0 where
  pub domain_name : String
  pub user : String
  pub command : List String
  pub strict_host_keys : Bool
  pub timeout : ℕ
  pub log_level : String
  pub extra_options : List String
  pub suppress_output : Bool

abbrev pub login : String → LibvirtSshOpts
login name = record {
  domain_name = name;
  user = "root";
  command = [];
  strict_host_keys = false;
  timeout = 30;
  log_level = "ERROR";
  extra_options = [];
  suppress_output = false;
}

module _ {W : Type 0} (h : Host W) (connect_uri : Option String) where
  found : String → Result String → Exec W String
  found name (ok state) = pure state
  found name (err _) = fail (format ("VM '" ∷ name ∷ "' not found" ∷ []))

  -- `get_domain_state(..).map_err(..)`
  unfoldable pub state_of : String → Exec W String
  unfolding found
  state_of name = attempt (get_domain_state h connect_uri name) >>= found name

  module _ (ssh : LibvirtSshOpts → Exec W (Unit {0})) where
    unfoldable pub after_start : LibvirtStartOpts → Exec W (Unit {0})
    after_start opts = if opts.ssh then ssh (login opts.name) else pure tt

    unfoldable pub start_stopped : LibvirtStartOpts → Exec W (Unit {0})
    unfolding after_start
    start_stopped opts = do
      output ←
          with_context (virsh h connect_uri ("start" ∷ opts.name ∷ [])) "Failed to run virsh start"
      if not output.success
          then fail (format ("Failed to start VM '" ∷ opts.name ∷ "': " ∷ output.stderr ∷ []))
          else after_start opts

    unfoldable pub start : LibvirtStartOpts → Exec W (Unit {0})
    unfolding state_of
    start opts = do
      state ← state_of opts.name
      if state == "running" then after_start opts else start_stopped opts

  abbrev pub stopping : LibvirtStopOpts → List String
  stopping opts = if opts.force then "destroy" ∷ opts.name ∷ [] else "shutdown" ∷ opts.name ∷ []

  unfoldable pub stop_running : LibvirtStopOpts → Exec W (Unit {0})
  stop_running opts = do
    output ← with_context (virsh h connect_uri (stopping opts)) "Failed to run virsh command"
    if not output.success
        then fail (format ("Failed to stop VM '" ∷ opts.name ∷ "': " ∷ output.stderr ∷ []))
        else pure tt

  unfoldable pub stop : LibvirtStopOpts → Exec W (Unit {0})
  unfolding state_of
  stop opts = do
    state ← state_of opts.name
    if state == "running" then stop_running opts else pure tt
