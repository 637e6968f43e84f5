-- ===== src/Host/Returns.antt =====
-- What a program over a host returns, if it does.
use bcvk.Common.{refl, not, Bool, true, false, String, ◌≡◌, ap, subst, if◌then◌else◌}
use bcvk.Result.{Result, ok, err, context}
use bcvk.Host.{Machine}
use bcvk.Host.Exec.{Exec, pure, fail, lift, with_context, ◌>>=◌, pure-eq-ok, >>=-eq-ok}

-- Every value that `m` returns satisfies `P`.
pub record Returns {W A : Type 0} (P : A → Type 0) (m : Exec W A) : Type 0 where
  pub returned : (s : Machine W) (a : A) (t : Machine W) → m s ≡ (ok a, t) → P a

pub context-ok :
    {A : Type 0} (r : Result A) (message : String) (a : A) → context r message ≡ ok a → r ≡ ok a
context-ok (ok b) message a e = e
context-ok (err x) message a e = cc

pub with_context-eq-ok :
    {W A : Type 0} (m : Exec W A) (message : String) (s t : Machine W) (a : A)
    → with_context m message s ≡ (ok a, t)
    → m s ≡ (ok a, t)
unfolding with_context
with_context-eq-ok m message s t a e =
    λ i. (context-ok (m s).0 message a (ap (λ q. q.0) e) i, ap (λ q. q.1) e i)

module _ {W A : Type 0} {P : A → Type 0} where
  pub Returns-pure : (a : A) → P a → Returns P (pure {W = W} a)
  Returns-pure a p = record { returned = λ s b t e. subst P (pure-eq-ok a b s t e).0 p }

  pub Returns-fail : (message : String) → Returns P (fail {W = W} message)
  unfolding fail
  Returns-fail message = record {
    returned = λ s b t e. let no : Result.err message ≡ ok b = ap (λ p. p.0) e in cc;
  }

  pub Returns-lift : (r : Result A) → ((a : A) → r ≡ ok a → P a) → Returns P (lift {W = W} r)
  unfolding lift
  Returns-lift r k = record { returned = λ s a t e. k a (ap (λ p. p.0) e) }

  pub Returns-if :
      (b : Bool) (m n : Exec W A) → Returns P m → Returns P n → Returns P (if b then m else n)
  Returns-if true m n p q = p
  Returns-if false m n p q = q

  pub Returns-context :
      (m : Exec W A) (message : String) → Returns P m → Returns P (with_context m message)
  Returns-context m message p = record {
    returned = λ s a t e. p.returned s a t (with_context-eq-ok m message s t a e);
  }

module _ {W A B : Type 0} {P : B → Type 0} where
  pub Returns-then :
      {Q : A → Type 0} (m : Exec W A) (f : A → Exec W B)
      → Returns Q m
      → ((a : A) → Q a → Returns P (f a))
      → Returns P (m >>= f)
  Returns-then m f q k = record {
    returned = λ s b t e.
        let (a, u, h, g) = >>=-eq-ok m f s e in (k a (q.returned s a u h)).returned u b t g;
  }

  pub Returns-bind :
      (m : Exec W A) (f : A → Exec W B) → ((a : A) → Returns P (f a)) → Returns P (m >>= f)
  Returns-bind m f k = record {
    returned = λ s b t e. let (a, u, h, g) = >>=-eq-ok m f s e in (k a).returned u b t g;
  }

-- a test whose failure ends the program
pub passed :
    {W : Type 0} (b : Bool) (e : String) (u t : Machine W)
    → (if not b then fail e else pure tt) u ≡ (ok tt, t)
    → (b ≡ true) × (u ≡ t)
unfolding fail pure
passed true e u t h = (refl, ap (λ p. p.1) h)
passed false e u t h = let no : Result.err e ≡ ok tt = ap (λ p. p.0) h in cc
