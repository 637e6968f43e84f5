-- ===== src/Readiness.antt =====
-- `wait_for_readiness` of crates/kit/src/utils.rs: a condition is polled until it holds or a time is
-- over. The progress bar is left out.
pub mod Ready
use bcvk.Common.{
  ℕ, zero, suc, ◌+◌, ◌-◌, ◌/◌, String, Bool, true, false, Option, none, some, [], ◌∷◌, ltb, format,
  to_string, if◌then◌else◌,
}
use bcvk.Result.{Result, ok, err}
use bcvk.Clock.{Clock}

module _ {W : Type 0} (clock : Clock W) (test_fn : W → Result Bool × W)
    (timeout poll_interval : ℕ) where
  abbrev timed_out : ℕ → Result ℕ
  timed_out attempt = err (
      format (
        "Timeout waiting for readiness after "
        ∷ to_string (timeout / 1000)
        ∷ "s ("
        ∷ to_string attempt
        ∷ " attempts)"
        ∷ []))

  abbrev pub after_test : ℕ → Result Bool → W → Option (Result ℕ) × W → Option (Result ℕ) × W
  after_test start (ok true) w again = (some (ok (clock.now w - start)), w)
  after_test start (ok false) w again = again
  after_test start (err e) w again = again

  -- The loop, from a number of attempts: the time that it took, or none where the rounds run out.
  unfoldable pub poll : ℕ → ℕ → ℕ → W → Option (Result ℕ) × W
  poll zero start attempt w = (none, w)
  poll (suc rounds) start attempt w = elim (ltb (clock.now w - start) timeout) [
    | false ↦ (some (timed_out attempt), w)
    | true ↦
        let (r, w') = test_fn w in
        after_test start r w' (poll rounds start (attempt + 1) (clock.sleep poll_interval w'))
  ]

  unfoldable pub wait_for_readiness : ℕ → W → Option (Result ℕ) × W
  unfolding poll
  wait_for_readiness rounds w = poll rounds (clock.now w) 0 w
