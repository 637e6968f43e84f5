-- ===== src/Clock.antt =====
-- The monotonic clock, `std::time::Instant`, in milliseconds, and `std::thread::sleep`: parameters of
-- the loops that wait.
use bcvk.Common.{ℕ, ◌+◌, ◌≤◌}

pub record Clock (W : Type 0) : Type 0 where
  pub now : W → ℕ
  pub sleep : ℕ → W → W

-- A sleep lasts at least as long as it was asked to.
pub record Sleeps {W : Type 0} (clock : Clock W) : Type 0 where
  pub lasts : (d : ℕ) (w : W) → clock.now w + d ≤ clock.now (clock.sleep d w)
