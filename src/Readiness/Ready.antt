-- ===== src/Readiness/Ready.antt =====
-- That `wait_for_readiness` (crates/kit/src/utils.rs) does not miss a condition that comes to hold.
use bcvk.Common.{
  ℕ, zero, suc, ◌+◌, ◌-◌, ◌*◌, ◌≤◌, ◌<◌, Option, none, some, Bool, true, false, Bool-cases, inl,
  inr, ltb, ◌≡◌, refl, arith,
}
use bcvk.Result.{Result, ok, err}
use bcvk.Clock.{Clock}
use bcvk.Readiness.{after_test, poll, wait_for_readiness}

abbrev succeeded : Option (Result ℕ) → Bool
succeeded none = false
succeeded (some (ok elapsed)) = true
succeeded (some (err e)) = false

abbrev IsReady : Option (Result ℕ) → Type 0
IsReady o = succeeded o ≡ true

-- The clock does not go back; a sleep and a test are not longer than the bounds.
pub record Timely {W : Type 0} (clock : Clock W) (test_fn : W → Result Bool × W)
    (poll_interval limit up : ℕ) : Type 0 where
  pub forward : (w : W) → clock.now w ≤ clock.now (test_fn w).1
  pub rests : (w : W) → clock.now w + poll_interval ≤ clock.now (clock.sleep poll_interval w)
  pub quick : (w : W) → clock.now (clock.sleep poll_interval (test_fn w).1) ≤ clock.now w + limit
  pub is_up : (w : W) → up ≤ clock.now w → (test_fn w).0 ≡ ok true

ltb→lt : (a b : ℕ) → ltb a b ≡ true → a < b
ltb→lt a b h = ground arith

ltb→ge : (a b : ℕ) → ltb a b ≡ false → b ≤ a
ltb→ge a b h = ground arith

still : (a b e limit up : ℕ) → a ≤ b + limit → b < up → up + limit < e → a < e
still a b e limit up q early h = omega arith

self_le : (n : ℕ) → n ≤ n
self_le n = omega arith

add_mono : (n a b : ℕ) → a ≤ b → n + a ≤ n + b
add_mono n a b h = omega arith

module _ {W : Type 0} (clock : Clock W) (test_fn : W → Result Bool × W)
    (timeout poll_interval limit up : ℕ) (t : Timely clock test_fn poll_interval limit up) where
  tested :
      (start : ℕ) (r : Result Bool) (w : W) (again : Option (Result ℕ) × W)
      → IsReady again.0
      → IsReady (after_test clock test_fn timeout poll_interval start r w again).0
  tested start (ok true) w again i = refl
  tested start (ok false) w again i = i
  tested start (err e) w again i = i

  round :
      (rounds start attempt : ℕ) (w : W)
      → start ≤ clock.now w
      → clock.now w < start + timeout
      → (clock.now w < up
          → IsReady
              (poll clock test_fn timeout poll_interval rounds start
                (attempt + 1)
                (clock.sleep poll_interval (test_fn w).1)).0)
      → IsReady (poll clock test_fn timeout poll_interval (suc rounds) start attempt w).0
  unfolding poll
  round rounds start attempt w b h later =
      let on = before (clock.now w) start b h in
      let late = t.is_up w in
      rw (on, poll)
        (elim (Bool-cases (ltb (clock.now w) up)) [
          | inl early ↦ tested start (test_fn w).0 (test_fn w).1 _ (later (ltb→lt _ _ early))
          | inr at_last ↦ let e = late (ltb→ge _ _ at_last) in rw e refl
        ])
    where
      before : (n s : ℕ) → s ≤ n → n < s + timeout → ltb (n - s) timeout ≡ true
      before n s b h = ground arith

  module _ (rounds start : ℕ) (w : W) (f : clock.now w ≤ clock.now (test_fn w).1)
      (s : clock.now (test_fn w).1 + poll_interval
        ≤ clock.now (clock.sleep poll_interval (test_fn w).1)) where
    enough :
        start + timeout ≤ clock.now w + suc rounds * poll_interval
        → start + timeout
          ≤ clock.now (clock.sleep poll_interval (test_fn w).1) + rounds * poll_interval
    enough e = grind arith

    passed : start ≤ clock.now w → start ≤ clock.now (clock.sleep poll_interval (test_fn w).1)
    passed b = omega (arith, f, s)

  polled :
      (rounds start attempt : ℕ) (w : W)
      → start + timeout ≤ clock.now w + rounds * poll_interval
      → up + limit < start + timeout
      → start ≤ clock.now w
      → clock.now w < start + timeout
      → IsReady (poll clock test_fn timeout poll_interval (suc rounds) start attempt w).0
  polled zero start attempt w e h b k = absurd (omega arith)
  polled (suc rounds) start attempt w e h b k = round (suc rounds) start attempt w b k (λ early.
      let f = t.forward w in
      let q = t.quick w in
      let s = t.rests (test_fn w).1 in
      polled rounds start (attempt + 1) (clock.sleep poll_interval (test_fn w).1)
        (enough rounds start w f s e) h (passed rounds start w f s b)
        (still _ _ (start + timeout) limit up q early h))

-- If the condition holds in every test that begins from the time `up` on, and a test with the sleep
-- after it takes no longer than `limit`, which leaves `up` before the end of the waiting, then
-- `wait_for_readiness` returns success, after no more attempts than the polling interval fits into
-- the time, and one.
pub wait_for_readiness-ready :
    {W : Type 0} (clock : Clock W) (test_fn : W → Result Bool × W)
    (timeout poll_interval limit up rounds : ℕ) (w : W)
    → Timely clock test_fn poll_interval limit up
    → 0 < timeout
    → up + limit < clock.now w + timeout
    → timeout ≤ rounds * poll_interval
    → (elapsed : ℕ) × ((wait_for_readiness clock test_fn timeout poll_interval (suc rounds) w).0
        ≡ some (ok elapsed))
unfolding wait_for_readiness
wait_for_readiness-ready clock test_fn timeout poll_interval limit up rounds w t p h r = shown _ (
    polled clock test_fn timeout poll_interval limit up t rounds (clock.now w) 0 w
      (add_mono (clock.now w) timeout (rounds * poll_interval) r) h (self_le (clock.now w))
      (below (clock.now w) p))
  where
    below : (n : ℕ) → 0 < timeout → n < n + timeout
    below n p = omega arith

    shown : (o : Option (Result ℕ)) → IsReady o → (elapsed : ℕ) × (o ≡ some (ok elapsed))
    shown none i = cc
    shown (some (ok elapsed)) i = (elapsed, refl)
    shown (some (err e)) i = cc
