-- ===== src/Boot/Monitor/Ends.antt =====
-- How many statuses the monitor of crates/kit/src/status_monitor.rs takes from its events.
use bcvk.Common.{
  ℕ, zero, suc, ◌+◌, ◌≤◌, ◌<◌, String, Bool, true, false, Option, none, some, List, [], ◌∷◌, length,
  is_some, if◌then◌else◌, ◌≡◌, refl, arith,
}
use bcvk.Result.{Result, ok, err}
use bcvk.Boot.{SupervisorStatus}
use bcvk.Boot.Monitor.{
  Event, Arrival, Item, Printed, printed, refused, unflushed, new_mtime, or_read, closed,
  on_arrival, is_relevant_event, next, Streamed, print_then, on_item, stream,
  monitor_and_stream_status,
}

-- All statuses but the last say that the machine runs.
abbrev pub RunningUpToLast : List SupervisorStatus → Type 0
RunningUpToLast [] = Unit
RunningUpToLast (s ∷ []) = Unit
RunningUpToLast (s ∷ t ∷ rest) = (s.running ≡ true) × RunningUpToLast (t ∷ rest)

module _ {W : Type 0} (metadata : String → W → Option (Option ℕ))
    (read_from_file : String → W → Result SupervisorStatus) (path : String) where
  abbrev unread : Option ℕ → W → Option ℕ
  unread last w = new_mtime metadata read_from_file path last (metadata path w)

  seen :
      (last : Option ℕ) (m : Option (Option ℕ)) (current : ℕ)
      → new_mtime metadata read_from_file path last m ≡ some current
      → new_mtime metadata read_from_file path (some current) m ≡ none
  unfolding new_mtime
  seen last (some (some t)) current h = ground arith
  seen last (some none) current h = cc
  seen last none current h = cc

  -- If there is an item, the file has been read as it is, and at most `n` arrivals are left.
  record Taken (n : ℕ) (i : Item W) : Type 0 where
    read : is_some i.item ≡ true → unread i.last_mtime i.world ≡ none
    left : is_some i.item ≡ true → length i.arrivals ≤ n

  or_read-Taken :
      (o : Option ℕ) (last : Option ℕ) (w : W) (arrivals : List (Arrival W)) (otherwise : Item W)
      (n : ℕ)
      → unread last w ≡ o
      → length arrivals ≤ n
      → Taken n otherwise
      → Taken n (or_read metadata read_from_file path o w arrivals last otherwise)
  or_read-Taken none last w arrivals otherwise n e h t = t
  or_read-Taken (some c) last w arrivals otherwise n e h t = record {
    read = λ _. seen last (metadata path w) c e;
    left = λ _. h;
  }

  closed-Taken :
      (last : Option ℕ) (w : W) (arrivals : List (Arrival W)) (n : ℕ)
      → Taken n (closed metadata read_from_file path last w arrivals)
  closed-Taken last w arrivals n = record { read = λ h. cc; left = λ h. cc }

  Taken-mono : (m n : ℕ) (i : Item W) → m ≤ n → Taken m i → Taken n i
  Taken-mono m n i h t = record { read = t.read; left = λ s. omega (arith, t.left s) }

  on_arrival-Taken :
      (last : Option ℕ) (a : Arrival W) (rest : List (Arrival W)) (again : Item W)
      → Taken (length rest) again
      → Taken (length rest) (on_arrival metadata read_from_file path last a rest again)
  unfolding on_arrival
  on_arrival-Taken last a rest again t = event a.event
    where
      relevant :
          (b : Bool)
          → Taken (length rest) (
              if b
              then or_read metadata read_from_file path
                  (unread last a.world)
                  a.world
                  rest
                  last
                  again
              else again)
      relevant true = or_read-Taken _ last a.world rest again (length rest) refl (omega arith) t
      relevant false = t

      event :
          (e : Result Event)
          → Taken (length rest) (elim e [
            | err x ↦ closed metadata read_from_file path last a.world rest
            | ok v ↦
                if is_relevant_event metadata read_from_file path v
                then or_read metadata read_from_file path
                    (unread last a.world)
                    a.world
                    rest
                    last
                    again
                else again
          ])
      event (err x) = closed-Taken last a.world rest (length rest)
      event (ok v) = relevant (is_relevant_event metadata read_from_file path v)

  next-Taken :
      (last : Option ℕ) (w : W) (arrivals : List (Arrival W))
      → Taken (length arrivals) (next metadata read_from_file path last w arrivals)
  unfolding next
  next-Taken last w [] = or_read-Taken _ last w [] _ 0 refl (omega arith) (closed-Taken last w [] 0)
  next-Taken last w (a ∷ rest) =
      or_read-Taken _ last w (a ∷ rest) _ (length (a ∷ rest)) refl (omega arith) (
        Taken-mono (length rest) (length (a ∷ rest)) _ (omega arith)
          (on_arrival-Taken last a rest _ (next-Taken last a.world rest)))

  -- With the file read as it is, an item takes an arrival.
  next-waits :
      (last : Option ℕ) (w : W) (arrivals : List (Arrival W))
      → unread last w ≡ none
      → is_some (next metadata read_from_file path last w arrivals).item ≡ true
      → length (next metadata read_from_file path last w arrivals).arrivals < length arrivals
  unfolding next
  next-waits last w [] h s = let none_left = rw h at s in cc
  next-waits last w (a ∷ rest) h s =
      let t = on_arrival-Taken last a rest _ (next-Taken last a.world rest) in
      rw h (omega (arith, t.left (rw h at s)))

  module _ (print : SupervisorStatus → Printed) where
    Ended : Streamed → Type 0
    Ended r = (is_some r.0 ≡ true) × RunningUpToLast r.1

    print_then-Ended :
        (status : SupervisorStatus) (later : Streamed) (p : Printed) (running : Bool)
        → status.running ≡ running
        → Ended later
        → Ended (print_then metadata read_from_file path print status later p running)
    unfolding Ended
    print_then-Ended status later refused running e h = (refl, tt)
    print_then-Ended status later unflushed running e h = (refl, tt)
    print_then-Ended status later printed false e h = (refl, tt)
    print_then-Ended status later printed true e h = (h.0, longer status later.1 e h.1)
      where
        longer :
            (s : SupervisorStatus) (rest : List SupervisorStatus)
            → s.running ≡ true
            → RunningUpToLast rest
            → RunningUpToLast (s ∷ rest)
        longer s [] e h = tt
        longer s (t ∷ rest) e h = (e, h)

    on_item-Ended :
        (i : Option (Result SupervisorStatus)) (later : Streamed)
        → (is_some i ≡ true → Ended later)
        → Ended (on_item metadata read_from_file path print i later)
    unfolding Ended
    on_item-Ended none later h = (refl, tt)
    on_item-Ended (some (err e)) later h = h refl
    on_item-Ended (some (ok status)) later h =
        print_then-Ended status later (print status) status.running refl (h refl)

    stream-settled :
        (rounds : ℕ) (last : Option ℕ) (w : W) (arrivals : List (Arrival W))
        → unread last w ≡ none
        → length arrivals < rounds
        → Ended (stream metadata read_from_file path print rounds last w arrivals)
    unfolding stream
    stream-settled zero last w arrivals u h = absurd (omega arith)
    stream-settled (suc rounds) last w arrivals u h =
        let i = next metadata read_from_file path last w arrivals in
        on_item-Ended i.item _ (λ s.
          stream-settled rounds i.last_mtime i.world i.arrivals
            ((next-Taken last w arrivals).read s) (omega (arith, next-waits last w arrivals u s)))

-- The monitor ends with its events: two rounds more than there are events are enough, whatever the
-- file holds. Of the statuses that it prints all but the last say that the machine runs.
pub monitor_and_stream_status-ends :
    {W : Type 0} (metadata : String → W → Option (Option ℕ))
    (read_from_file : String → W → Result SupervisorStatus) (path : String)
    (print : SupervisorStatus → Printed) (rounds : ℕ) (w : W) (arrivals : List (Arrival W))
    → length arrivals + 1 < rounds
    → (is_some (monitor_and_stream_status metadata read_from_file path print rounds w arrivals).0
        ≡ true)
      × RunningUpToLast
          (monitor_and_stream_status metadata read_from_file path print rounds w arrivals).1
unfolding monitor_and_stream_status stream Ended
monitor_and_stream_status-ends metadata read_from_file path print zero w arrivals h =
    absurd (omega arith)
monitor_and_stream_status-ends metadata read_from_file path print (suc rounds) w arrivals h =
    let i = next metadata read_from_file path none w arrivals in
    let t = next-Taken metadata read_from_file path none w arrivals in
    on_item-Ended metadata read_from_file path print i.item _ (λ s.
      stream-settled metadata read_from_file path print rounds i.last_mtime i.world i.arrivals
        (t.read s) (omega (arith, t.left s)))
