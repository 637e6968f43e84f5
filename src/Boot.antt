-- ===== src/Boot.antt =====
-- crates/kit/src/supervisor_status.rs and crates/kit/src/boot_progress.rs: the status of a machine,
-- and how it follows what systemd notifies. The JSON text of a status and the writing of a file are
-- parameters.
pub mod Refinement
pub mod Monitor
use bcvk.Common.{
  String, Bool, true, false, ◌||◌, Option, none, some, List, [], ◌∷◌, ◌==◌, unwrap_or, trim,
  split_once, if◌then◌else◌,
}
use bcvk.Common.Text.Paths.{file_name, parent}
use bcvk.Result.{Result, ok, err}

pub data SupervisorState : Type 0 where
  waiting_for_systemd : SupervisorState
  reached_target : String → SupervisorState
  ready : SupervisorState

pub record SupervisorStatus : Type 0 where
  pub state : Option SupervisorState
  pub ssh_access : Bool
  pub running : Bool

-- `SupervisorStatus::new`
abbrev pub new_status : SupervisorState → SupervisorStatus
new_status state = record { state = some state; ssh_access = false; running = true }

abbrev pub ssh_access_target : String
ssh_access_target = "ssh-access.target"

module _ {W : Type 0} (to_string_pretty : SupervisorStatus → Result String)
    (atomic_write : String → String → String → W → Result (Unit {0}) × W) where
  abbrev written : String → Result String → W → Result (Unit {0}) × W
  written path (err e) w = (err e, w)
  written path (ok json) w = atomic_write (parent path) (unwrap_or (file_name path) path) json w

  -- `SupervisorStatus::write_to_file`, `StatusWriter::update`
  unfoldable pub write_to_file : SupervisorStatus → String → W → Result (Unit {0}) × W
  write_to_file status path w = written path (to_string_pretty status) w

abbrev pub reached : String → Bool → SupervisorStatus
reached v ssh_access = record {
  state = some (reached_target v);
  ssh_access = ssh_access;
  running = true;
}

activated : String → Bool → Bool × Option SupervisorStatus
activated v access = (access, some (reached v access))

-- what a line does: the flag after it, and the status that is to be written
on_pair : Bool → String × String → Bool × Option SupervisorStatus
on_pair ssh_access pair =
    let v = pair.1 in
    if pair.0 == "READY"
    then (ssh_access, some (reached v ssh_access))
    else if pair.0 == "X_SYSTEMD_UNIT_ACTIVE"
    then activated v (if v == ssh_access_target then true else ssh_access)
    else (ssh_access, none)

unfoldable pub on_line : Bool → String → Bool × Option SupervisorStatus
unfolding on_pair activated
on_line ssh_access line = elim (split_once "=" (trim line)) [
  | none ↦ (ssh_access, none)
  | some pair ↦ on_pair ssh_access pair
]

module _ {W : Type 0} (update : SupervisorStatus → W → Result (Unit {0}) × W) where
  -- `StatusWriter::update_state`
  unfoldable pub update_state : SupervisorState → W → Result (Unit {0}) × W
  update_state state w = update (new_status state) w

  -- `StatusWriter::finish`
  unfoldable pub finish : W → Result (Unit {0}) × W
  finish w = update (record { state = none; ssh_access = false; running = false }) w

  -- the loop of `monitor_boot_progress`, from a value of its flag
  abbrev pub write_then :
      Option SupervisorStatus → (W → Result (Unit {0}) × W) → W → Result (Unit {0}) × W
  write_then none next w = next w
  write_then (some status) next w =
      let (r, w') = update status w in elim r [ err e ↦ (err e, w') | ok _ ↦ next w' ]

  unfoldable pub follow : Bool → List (Result String) → W → Result (Unit {0}) × W
  unfolding on_line
  follow ssh_access [] w = (ok tt, w)
  follow ssh_access (err e ∷ rest) w = (err e, w)
  follow ssh_access (ok line ∷ rest) w =
      let (access, status) = on_line ssh_access line in write_then status (follow access rest) w

  unfoldable pub monitor_boot_progress : List (Result String) → W → Result (Unit {0}) × W
  unfolding follow
  monitor_boot_progress lines w =
      write_then (some (new_status waiting_for_systemd)) (follow false lines) w
