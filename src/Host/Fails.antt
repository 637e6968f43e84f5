-- ===== src/Host/Fails.antt =====
-- A program over a host that fails, and what it leaves behind.
use bcvk.Common.{String, false, ◌≡◌, refl}
use bcvk.Result.{Result, ok, err, is_ok}
use bcvk.Host.{Machine}
use bcvk.Host.Exec.{Exec, continue, lift, with_context, ◌>>=◌}

-- From `s` on `m` fails, and `P` holds of the machine then.
pub record Fails {W A : Type 0} (P : Machine W → Type 0) (m : Exec W A) (s : Machine W)
    : Type 0 where
  pub failed : is_ok (m s).0 ≡ false
  pub left : P (m s).1

continue-Fails :
    {W A B : Type 0} (P : Machine W → Type 0) (r : Result A) (f : A → Exec W B) (t : Machine W)
    → is_ok r ≡ false
    → P t
    → (is_ok (continue r f t).0 ≡ false) × P (continue r f t).1
continue-Fails P (ok a) f t h p = cc
continue-Fails P (err e) f t h p = (refl, p)

module _ {W A B : Type 0} {P : Machine W → Type 0} where
  -- a failure ends what follows
  pub Fails-bind :
      (m : Exec W A) (f : A → Exec W B) (s : Machine W) → Fails P m s → Fails P (m >>= f) s
  unfolding ◌>>=◌
  Fails-bind m f s h =
      let (e, p) = continue-Fails P (m s).0 f (m s).1 h.failed h.left in
      record { failed = e; left = p }

  -- a test fails, or what follows it does
  pub Fails-lift :
      (r : Result A) (f : A → Exec W B) (s : Machine W)
      → P s
      → ((a : A) → Fails P (f a) s)
      → Fails P (lift r >>= f) s
  unfolding ◌>>=◌ lift
  Fails-lift (ok a) f s p k = record { failed = (k a).failed; left = (k a).left }
  Fails-lift (err e) f s p k = record { failed = refl; left = p }

  -- what follows a call that returns
  pub Fails-after :
      (m : Exec W A) (message : String) (f : A → Exec W B) (s u : Machine W) (a : A)
      → m s ≡ (ok a, u)
      → Fails P (f a) u
      → Fails P (with_context m message >>= f) s
  unfolding ◌>>=◌ with_context
  Fails-after m message f s u a h k = record { failed = rw h k.failed; left = rw h k.left }
