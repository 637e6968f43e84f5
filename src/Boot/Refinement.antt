-- ===== src/Boot/Refinement.antt =====
-- The boot progress of crates/kit/src/boot_progress.rs against a machine that remembers every
-- notification.
use mathlib.Core.Path.{fun_ext}
use bcvk.Common.{
  String, Bool, true, false, Option, none, some, List, [], ◌∷◌, map, any, ◌==◌, ◌≡◌, refl, ap, ◌∙◌,
  arith, trim, split_once, if◌then◌else◌,
}
use bcvk.Result.{Result, ok}
use bcvk.Boot.{
  SupervisorStatus, new_status, waiting_for_systemd, reached_target, ssh_access_target, on_line,
  write_then, follow, monitor_boot_progress,
}

pub data Notification : Type 0 where
  ready active : String → Notification

-- The state is the history, the newest notification first; what is shown of it is its last target,
-- and whether the unit for ssh has ever been active.
unfoldable pub target : Notification → String
target (ready v) = v
target (active v) = v

unfoldable pub opens_ssh : Notification → Bool
opens_ssh (ready v) = false
opens_ssh (active v) = v == ssh_access_target

unfoldable pub view : Notification → List Notification → SupervisorStatus
unfolding target opens_ssh
view n history = record {
  state = some (reached_target (target n));
  ssh_access = any opens_ssh (n ∷ history);
  running = true;
}

unfoldable pub notification_of : String × String → Option Notification
notification_of pair =
    if pair.0 == "READY"
    then some (ready pair.1)
    else if pair.0 == "X_SYSTEMD_UNIT_ACTIVE"
    then some (active pair.1)
    else none

unfoldable pub notification : String → Option Notification
unfolding notification_of
notification line = elim (split_once "=" (trim line)) [
  | none ↦ none
  | some pair ↦ notification_of pair
]

unfoldable pub add : Option Notification → List Notification → List Notification
add none rest = rest
add (some n) rest = n ∷ rest

unfoldable pub notifications : List String → List Notification
notifications [] = []
notifications (line ∷ rest) = add (notification line) (notifications rest)

-- the views after each notification
unfoldable pub views : List Notification → List Notification → List SupervisorStatus
views history [] = []
views history (n ∷ rest) = view n history ∷ views (n ∷ history) rest

shown : List Notification → Option Notification → Bool × Option SupervisorStatus
shown history none = (any opens_ssh history, none)
shown history (some n) = (any opens_ssh (n ∷ history), some (view n history))

on_line-shown :
    (history : List Notification) (line : String)
    → on_line (any opens_ssh history) line ≡ shown history (notification line)
unfolding on_line shown view opens_ssh target notification notification_of
on_line-shown history line = ground arith

module _ {W : Type 0} (update : SupervisorStatus → W → Result (Unit {0}) × W) where
  -- each status is written in turn, up to the first that cannot be
  unfoldable pub write_all : List SupervisorStatus → W → Result (Unit {0}) × W
  write_all [] w = (ok tt, w)
  write_all (s ∷ rest) w = write_then update (some s) (write_all rest) w

  follow-views :
      (history : List Notification) (lines : List String) (w : W)
      → follow update (any opens_ssh history) (map ok lines) w
        ≡ write_all (views history (notifications lines)) w
  unfolding follow write_all views notifications add shown
  follow-views history [] w = refl
  follow-views history (line ∷ rest) w =
      ap (λ q. write_then update q.1 (follow update q.0 (map ok rest)) w)
        (on_line-shown history line)
      ∙ noted (notification line) (λ h v. follow-views h rest v)
    where
      noted :
          (o : Option Notification)
          → ((h : List Notification) (v : W)
              → follow update (any opens_ssh h) (map ok rest) v
                ≡ write_all (views h (notifications rest)) v)
          → write_then update
              (shown history o).1
              (follow update (shown history o).0 (map ok rest))
              w
            ≡ write_all (views history (add o (notifications rest))) w
      noted none later = later history w
      noted (some n) later =
          ap (λ k. write_then update (some (view n history)) k w)
            (fun_ext (λ v. later (n ∷ history) v))

-- What is written while a machine boots is what the machine that remembers every notification
-- shows: first that systemd is waited for, and after each line that is a notification its target,
-- with access by ssh from the time on that the unit for it has been active. The target is the
-- notification's value: for `READY=1` it is `1`, where the status `Ready` is documented for a machine
-- that is ready. The writing ends with the first status that cannot be written. All lines could be
-- read.
pub monitor_boot_progress-refines :
    {W : Type 0} (update : SupervisorStatus → W → Result (Unit {0}) × W) (lines : List String)
    (w : W)
    → monitor_boot_progress update (map ok lines) w
      ≡ write_all update (new_status waiting_for_systemd ∷ views [] (notifications lines)) w
unfolding monitor_boot_progress write_all
monitor_boot_progress-refines update lines w =
    ap (λ k. write_then update (some (new_status waiting_for_systemd)) k w)
      (fun_ext (λ w'. follow-views update [] lines w'))
