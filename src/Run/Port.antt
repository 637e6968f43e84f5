-- ===== src/Run/Port.antt =====
-- The port for ssh that crates/kit/src/libvirt/run.rs chooses.
use bcvk.Common.{
  ℕ, zero, suc, ◌+◌, ◌≤◌, ◌<◌, Bool, true, false, ◌≡◌, refl, subst, sym, ◌⊎◌, inl, inr, arith,
  if◌then◌else◌,
}
use bcvk.Result.{ok}
use bcvk.Host.{Machine}
use bcvk.Host.Exec.{Exec, pure, reads, ◌>>=◌, pure-eq-ok}
use bcvk.Run.{RunHost, sequential_port, random_range, find_port, find_available_ssh_port}

split_last : (q port : ℕ) → q < suc port → (q < port) ⊎ (q ≡ port)
split_last q port b = omega arith

module _ {W : Type 0} (r : RunHost W) where
  -- The port is in the range, and it can be bound, or it is the first one and no port of the range
  -- can.
  pub record IsChosen (port : ℕ) (t : Machine W) : Type 0 where
    pub above : 2222 ≤ port
    pub below : port < 3000
    pub free :
        (r.can_bind port t.world ≡ true)
        ⊎ ((port ≡ 2222) × ((q : ℕ) → 2222 ≤ q → q < 3000 → r.can_bind q t.world ≡ false))

  bound-IsChosen :
      (port p : ℕ) (s t : Machine W)
      → 2222 ≤ port
      → port < 3000
      → r.can_bind port s.world ≡ true
      → pure port s ≡ (ok p, t)
      → IsChosen p t
  bound-IsChosen port p s t lo hi free h =
      let (same, there) = pure-eq-ok port p s t h in
      subst (λ q. IsChosen q t) same
        (record {
          above = lo;
          below = hi;
          free = inl (subst (λ (m : Machine W). r.can_bind port m.world ≡ true) there free);
        })

  -- one test of a port, and what follows where something listens on it
  tested-IsChosen :
      (port p : ℕ) (later : Exec W ℕ) (b : Bool) (s t : Machine W)
      → 2222 ≤ port
      → port < 3000
      → r.can_bind port s.world ≡ b
      → (r.can_bind port s.world ≡ false → later s ≡ (ok p, t) → IsChosen p t)
      → (if b then pure port else later) s ≡ (ok p, t)
      → IsChosen p t
  tested-IsChosen port p later true s t lo hi free k h = bound-IsChosen port p s t lo hi free h
  tested-IsChosen port p later false s t lo hi free k h = k free h

  later :
      (P : ℕ → Type 0) (port : ℕ)
      → ((q : ℕ) → 2222 ≤ q → q < port → P q)
      → P port
      → (q : ℕ) → 2222 ≤ q
      → q < suc port
      → P q
  later P port before here q a b = elim (split_last q port b) [
    | inl lt ↦ before q a lt
    | inr e ↦ subst P (sym e) here
  ]

  sequential_port-IsChosen :
      (left port p : ℕ) (s t : Machine W)
      → 2222 ≤ port
      → port + left ≡ 3000
      → ((q : ℕ) → 2222 ≤ q → q < port → r.can_bind q s.world ≡ false)
      → sequential_port r left port s ≡ (ok p, t)
      → IsChosen p t
  unfolding sequential_port reads ◌>>=◌
  sequential_port-IsChosen zero port p s t lo hi busy h =
      let (same, there) = pure-eq-ok 2222 p s t h in
      subst (λ q. IsChosen q t) same
        (record {
          above = omega arith;
          below = omega arith;
          free = inr (
            refl,
            λ q a b.
                subst (λ (m : Machine W). r.can_bind q m.world ≡ false) there
                  (busy q a (omega arith)),
          );
        })
  sequential_port-IsChosen (suc left) port p s t lo hi busy h =
      tested-IsChosen port p _ (r.can_bind port s.world) s t lo (omega arith) refl
        (λ taken k.
          sequential_port-IsChosen left (suc port) p s t (omega arith) (omega arith)
            (later (λ q. r.can_bind q s.world ≡ false) port busy taken) k)
        h

  module _
      (within : (lo hi : ℕ) (w : W)
        → lo < hi
        → (lo ≤ (r.random_range lo hi w).0) × ((r.random_range lo hi w).0 < hi)) where
    find_port-IsChosen :
        (attempts p : ℕ) (s t : Machine W) → find_port r attempts s ≡ (ok p, t) → IsChosen p t
    unfolding find_port random_range reads ◌>>=◌
    find_port-IsChosen zero p s t h =
        sequential_port-IsChosen 778 2222 p s t (omega arith) (omega arith)
          (λ q a b. absurd (omega arith)) h
    find_port-IsChosen (suc attempts) p s t h =
        let (lo, hi) = within 2222 3000 s.world (omega arith) in
        tested-IsChosen (r.random_range 2222 3000 s.world).0 p _ _ _ t lo hi refl
          (λ _ k. find_port-IsChosen attempts p _ t k) h

-- The port for ssh is from 2222 to 2999. It can be bound when it is chosen, unless it is 2222 and no
-- port from 2222 to 2999 can be bound. A random number is within the bounds that it is asked for.
pub find_available_ssh_port-IsChosen :
    {W : Type 0} (r : RunHost W) (p : ℕ) (s t : Machine W)
    → ((lo hi : ℕ) (w : W)
        → lo < hi
        → (lo ≤ (r.random_range lo hi w).0) × ((r.random_range lo hi w).0 < hi))
    → find_available_ssh_port r s ≡ (ok p, t)
    → IsChosen r p t
unfolding find_available_ssh_port
find_available_ssh_port-IsChosen r p s t within h = find_port-IsChosen r within 100 p s t h
