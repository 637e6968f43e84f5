-- ===== src/Virsh/Attempts.antt =====
-- How often crates/kit/src/libvirt/virsh.rs runs virsh.
use bcvk.Common.{
  ℕ, zero, suc, ◌+◌, ◌*◌, ◌≤◌, ◌<◌, Option, Bool, true, false, is_some, ◌≡◌, refl, arith, String,
  or_else, if◌then◌else◌,
}
use bcvk.Result.{Result}
use bcvk.Host.{Output}
use bcvk.Clock.{Clock, Sleeps}
use bcvk.Virsh.{
  attempts, output_with_retry, output, uses_session_daemon, longer, max_backoff,
  connect_retry_timeout, initial_backoff,
}

module _ {W : Type 0} (clock : Clock W) (run : W → Result Output × W) (sleeps : Sleeps clock)
    (forward : (w : W) → clock.now w ≤ clock.now (run w).1) where
  -- A round ends, or another one begins before the deadline, later by the sleep.
  one_more :
      (rounds deadline backoff : ℕ) (w : W)
      → ((w' : W)
          → clock.now w + backoff ≤ clock.now w'
          → clock.now w < deadline
          → is_some (attempts clock run rounds deadline (longer backoff) w').0 ≡ true)
      → is_some (attempts clock run (suc rounds) deadline backoff w).0 ≡ true
  unfolding attempts
  one_more rounds deadline backoff w next =
      ground
        (arith, forward w, sleeps.lasts backoff (run w).1, next (clock.sleep backoff (run w).1))

  at_most :
      (n deadline : ℕ) (w : W)
      → deadline ≤ clock.now w + n * max_backoff
      → is_some (attempts clock run (suc n) deadline max_backoff w).0 ≡ true
  at_most zero deadline w h =
      one_more zero deadline max_backoff w (λ w1 later before. absurd (omega arith))
  at_most (suc n) deadline w h =
      one_more (suc n) deadline max_backoff w
        (λ w' later before. at_most n deadline w' (omega arith))

  within_20 :
      (w : W)
      → is_some (output_with_retry clock run 20 connect_retry_timeout initial_backoff w).0 ≡ true
  unfolding output_with_retry
  within_20 w =
      let deadline = clock.now w + 60000 in
      one_more 19 deadline 250 w (λ w1 l1 _. one_more 18 deadline 500 w1 (λ w2 l2 _.
        one_more 17 deadline 1000 w2 (λ w3 l3 _.
          one_more 16 deadline 2000 w3 (λ w4 l4 _. at_most 15 deadline w4 (omega arith)))))

-- Running virsh ends, with an output or an error, after at most 20 attempts, if the clock does not go
-- back while virsh runs and a sleep lasts as long as it was asked to.
pub output-within_20 :
    {W : Type 0} (clock : Clock W) (run : W → Result Output × W)
    (connect_uri default_uri : Option String) (is_root : Bool) (w : W)
    → Sleeps clock
    → ((w : W) → clock.now w ≤ clock.now (run w).1)
    → is_some (output clock run 20 connect_uri default_uri is_root w).0 ≡ true
unfolding output
output-within_20 {W} clock run connect_uri default_uri is_root w sleeps forward =
    chosen (uses_session_daemon (or_else connect_uri default_uri) is_root) _ _
      (within_20 clock run sleeps forward w) refl
  where
    chosen :
        (b : Bool) (x y : Option (Result Output) × W)
        → is_some x.0 ≡ true
        → is_some y.0 ≡ true
        → is_some (if b then x else y).0 ≡ true
    chosen true x y p q = p
    chosen false x y p q = q
