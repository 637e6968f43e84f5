-- ===== src/Virsh/Recovery.antt =====
-- That the retries of crates/kit/src/libvirt/virsh.rs outlast a restart of the session's daemon.
use bcvk.Common.{
  ℕ, zero, suc, ◌+◌, ◌≤◌, Option, none, some, Bool-cases, Bool, true, false, not, ◌||◌, leb,
  is_some, ◌≡◌, refl, arith, String, or_else, inl, inr,
}
use bcvk.Result.{Result, ok, err}
use bcvk.Host.{Output}
use bcvk.Clock.{Clock, Sleeps}
use bcvk.Virsh.{
  settle, attempts, output_with_retry, output, uses_session_daemon, is_transient_connect_failure,
  longer, connect_retry_timeout, initial_backoff,
}
use bcvk.Virsh.Attempts.{output-within_20}

-- Virsh was run: it has failed for a reason of its own, or succeeded, or could not be started.
abbrev pub Settled : Result Output → Type 0
Settled (err e) = Unit
Settled (ok o) = is_transient_connect_failure o ≡ false

some-injective : {A : Type 0} {a b : A} → some a ≡ some b → a ≡ b
some-injective h = cc

module _ {W : Type 0} (clock : Clock W) (run : W → Result Output × W) (limit up : ℕ)
    (quick : (w : W) → clock.now (run w).1 ≤ clock.now w + limit)
    (is_up : (w : W) → up ≤ clock.now w → Settled (run w).0) where
  over :
      (deadline : ℕ) (w w' : W) (o : Output)
      → up + limit ≤ deadline
      → clock.now w' ≤ clock.now w + limit
      → (up ≤ clock.now w → Settled (ok o))
      → (not (is_transient_connect_failure o) || leb deadline (clock.now w')) ≡ true
      → Settled (ok o)
  over deadline w w' o h l s done = ground (arith, s)

  settled :
      (deadline : ℕ) (w w' : W) (q r : Result Output) (later : Option (Result Output) × W)
      → up + limit ≤ deadline
      → clock.now w' ≤ clock.now w + limit
      → (up ≤ clock.now w → Settled q)
      → (later.0 ≡ some r → Settled r)
      → (settle clock run deadline q w' later).0 ≡ some r
      → Settled r
  settled deadline w w' (err x) r later h l s k e =
      let same : err x ≡ r = some-injective e in rw (← same) tt
  settled deadline w w' (ok o) r later h l s k e =
      elim (Bool-cases (not (is_transient_connect_failure o) || leb deadline (clock.now w'))) [
        | inl done ↦
            let same : ok o ≡ r = some-injective (rw done at e) in
            rw (← same) (over deadline w w' o h l s done)
        | inr again ↦ k (rw again at e)
      ]

  attempts-Settled :
      (rounds deadline backoff : ℕ) (w : W) (r : Result Output)
      → up + limit ≤ deadline
      → (attempts clock run rounds deadline backoff w).0 ≡ some r
      → Settled r
  unfolding attempts
  attempts-Settled zero deadline backoff w r h e = cc
  attempts-Settled (suc rounds) deadline backoff w r h e =
      settled deadline w (run w).1 (run w).0 r _ h (quick w) (is_up w)
        (attempts-Settled rounds deadline (longer backoff) (clock.sleep backoff (run w).1) r h) e

  output-Settled :
      (rounds : ℕ) (connect_uri default_uri : Option String) (is_root : Bool) (w : W)
      (r : Result Output)
      → up + limit ≤ clock.now w + connect_retry_timeout
      → uses_session_daemon (or_else connect_uri default_uri) is_root ≡ true
      → (output clock run rounds connect_uri default_uri is_root w).0 ≡ some r
      → Settled r
  unfolding output output_with_retry
  output-Settled rounds connect_uri default_uri is_root w r h session e =
      attempts-Settled rounds (clock.now w + connect_retry_timeout) initial_backoff w r h
        (rw session at e)

-- A session's daemon that restarts is waited for: if from the time `up` on virsh connects, no run of
-- virsh takes longer than `limit`, and `up` is at least `limit` before the end of the sixty seconds
-- that begin now, then what `output` returns within its 20 attempts is no failure to connect.
pub output-recovers :
    {W : Type 0} (clock : Clock W) (run : W → Result Output × W) (limit up : ℕ)
    (connect_uri default_uri : Option String) (is_root : Bool) (w : W)
    → Sleeps clock
    → ((w : W) → clock.now w ≤ clock.now (run w).1)
    → ((w : W) → clock.now (run w).1 ≤ clock.now w + limit)
    → ((w : W) → up ≤ clock.now w → Settled (run w).0)
    → up + limit ≤ clock.now w + 60000
    → uses_session_daemon (or_else connect_uri default_uri) is_root ≡ true
    → (r : Result Output) × ((output clock run 20 connect_uri default_uri is_root w).0 ≡ some r)
      × Settled r
output-recovers clock run limit up connect_uri default_uri is_root w sleeps forward quick is_up h
      session =
    let ended = output-within_20 clock run connect_uri default_uri is_root w sleeps forward in
    returned _ ended (λ r e.
      output-Settled clock run limit up quick is_up 20 connect_uri default_uri is_root w r h session
        e)
  where
    returned :
        (o : Option (Result Output))
        → is_some o ≡ true
        → ((r : Result Output) → o ≡ some r → Settled r)
        → (r : Result Output) × (o ≡ some r) × Settled r
    returned none e k = cc
    returned (some r) e k = (r, refl, k r refl)
