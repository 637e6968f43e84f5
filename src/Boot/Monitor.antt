-- ===== src/Boot/Monitor.antt =====
-- crates/kit/src/status_monitor.rs: the statuses that are read from a file as it changes. The watcher
-- is a list of arrivals, each an event with the world as it is when the event is received; the
-- channel is closed at its end. Between arrivals the world does not change.
pub mod Ends
use bcvk.Common.{
  ℕ, zero, suc, String, Bool, true, false, not, ◌&&◌, Option, none, some, List, [], ◌∷◌, any, ◌==◌,
  eqb, if◌then◌else◌,
}
use bcvk.Result.{Result, ok, err}
use bcvk.Boot.{SupervisorStatus}

pub data EventKind : Type 0 where
  create modify other : EventKind

pub record Event : Type 0 where
  pub kind : EventKind
  pub paths : List String

pub record Arrival (W : Type 0) : Type 0 where
  pub event : Result Event
  pub world : W

-- What `next` gives, with the iterator, the world and the arrivals after it.
pub record Item (W : Type 0) : Type 0 where
  pub item : Option (Result SupervisorStatus)
  pub last_mtime : Option ℕ
  pub world : W
  pub arrivals : List (Arrival W)

-- What printing a status comes to: a refused write ends the command, a failed flush is an error.
pub data Printed : Type 0 where
  printed refused unflushed : Printed

abbrev pub Streamed : Type 0
Streamed = Option (Result (Unit {0})) × List SupervisorStatus

-- Metadata is none where there is no file, and its time none where that is not known.
module _ {W : Type 0} (metadata : String → W → Option (Option ℕ))
    (read_from_file : String → W → Result SupervisorStatus) (path : String) where
  abbrev pub mtime_changed : Option ℕ → ℕ → Bool
  mtime_changed none current = true
  mtime_changed (some last) current = not (eqb current last)

  -- the time of the file, if it is known and has changed
  unfoldable pub new_mtime : Option ℕ → Option (Option ℕ) → Option ℕ
  new_mtime last (some (some current)) = if mtime_changed last current then some current else none
  new_mtime last (some none) = none
  new_mtime last none = none

  -- `is_relevant_event`
  unfoldable pub is_relevant_event : Event → Bool
  is_relevant_event e = elim e.kind [
    | create ↦ any (λ p. p == path) e.paths
    | modify ↦ any (λ p. p == path) e.paths
    | other ↦ false
  ]

  -- `try_read_status_if_changed`, and what its caller does if it gives nothing
  abbrev pub or_read : Option ℕ → W → List (Arrival W) → Option ℕ → Item W → Item W
  or_read (some current) w arrivals last otherwise = record {
    item = some (read_from_file path w);
    last_mtime = some current;
    world = w;
    arrivals = arrivals;
  }
  or_read none w arrivals last otherwise = otherwise

  abbrev pub closed : Option ℕ → W → List (Arrival W) → Item W
  closed last w arrivals = record { item = none; last_mtime = last; world = w; arrivals = arrivals }

  -- what follows a wait; the last argument is the loop's next turn
  unfoldable pub on_arrival : Option ℕ → Arrival W → List (Arrival W) → Item W → Item W
  unfolding new_mtime is_relevant_event
  on_arrival last a rest again = elim a.event [
    | err e ↦ closed last a.world rest
    | ok event ↦
        if is_relevant_event event
        then or_read (new_mtime last (metadata path a.world)) a.world rest last again
        else again
  ]

  -- `StatusFileIterator::next`; the file is looked at before each wait, and after an event on it
  unfoldable pub next : Option ℕ → W → List (Arrival W) → Item W
  unfolding new_mtime on_arrival
  next last w [] = or_read (new_mtime last (metadata path w)) w [] last (closed last w [])
  next last w (a ∷ rest) =
      or_read (new_mtime last (metadata path w)) w (a ∷ rest) last
        (on_arrival last a rest (next last a.world rest))

  module _ (print : SupervisorStatus → Printed) where
    -- a status is printed, and what follows where the machine still runs
    abbrev pub print_then : SupervisorStatus → Streamed → Printed → Bool → Streamed
    print_then status later refused running = (some (ok tt), [])
    print_then status later unflushed running = (some (err "flush"), status ∷ [])
    print_then status later printed false = (some (ok tt), status ∷ [])
    print_then status later printed true = (later.0, status ∷ later.1)

    abbrev pub on_item : Option (Result SupervisorStatus) → Streamed → Streamed
    on_item none later = (some (ok tt), [])
    on_item (some (err e)) later = later
    on_item (some (ok status)) later = print_then status later (print status) status.running

    -- The loop of `monitor_and_stream_status`: its result, or none where the rounds run out, and
    -- what is printed.
    unfoldable pub stream : ℕ → Option ℕ → W → List (Arrival W) → Streamed
    unfolding next
    stream zero last w arrivals = (none, [])
    stream (suc rounds) last w arrivals =
        let i = next last w arrivals in
        on_item i.item (stream rounds i.last_mtime i.world i.arrivals)

    unfoldable pub monitor_and_stream_status : ℕ → W → List (Arrival W) → Streamed
    unfolding stream
    monitor_and_stream_status rounds w arrivals = stream rounds none w arrivals
