-- ===== src/Host/Exec.antt =====
-- Programs over a host: they read and change the world, log what they do, and may fail. What was
-- done before a failure stays done, so the machine comes back beside the error too.
use bcvk.Common.{String, Bool, Option, List, ◌∷◌, true, false, if◌then◌else◌, All, ◌≡◌, refl, arith}
use mathlib.Core.List.{head?}
use bcvk.Result.{Result, ok, err, context}
use bcvk.Host.{Output, Persisted, Host, Action, Machine}

abbrev pub Exec : Type 0 → Type 0 → Type 0
Exec W A = Machine W → Result A × Machine W

module _ {W A : Type 0} where
  unfoldable pub pure : A → Exec W A
  pure a s = (ok a, s)

  unfoldable pub fail : String → Exec W A
  fail e s = (err e, s)

  unfoldable pub lift : Result A → Exec W A
  lift r s = (r, s)

  -- what is read from the world changes nothing
  unfoldable pub reads : (W → A) → Exec W A
  reads f s = (ok (f s.world), s)

  unfoldable pub with_context : Exec W A → String → Exec W A
  with_context m e s = let (r, s') = m s in (context r e, s')

  unfoldable pub map_err : (String → String) → Exec W A → Exec W A
  map_err f m s = let (r, s') = m s in (elim r [ ok a ↦ ok a | err e ↦ err (f e) ], s')

  -- a call whose failure the code looks at, or ignores
  unfoldable pub attempt : Exec W A → Exec W (Result A)
  attempt m s = let (r, s') = m s in (ok r, s')

module _ {W A B : Type 0} where
  abbrev pub continue : Result A → (A → Exec W B) → Exec W B
  continue (ok a) f s = f a s
  continue (err e) f s = (err e, s)

  infixl 5 ◌>>=◌ ◌>>◌
  -- opening this opens the actions above too
  unfoldable pub ◌>>=◌ : Exec W A → (A → Exec W B) → Exec W B
  unfolding pure fail lift reads with_context map_err attempt
  ◌>>=◌ m f s = let (r, s') = m s in continue r f s'

  abbrev pub ◌>>◌ : Exec W A → Exec W B → Exec W B
  m >> n = m >>= λ _. n

module _ {W : Type 0} (h : Host W) where
  unfoldable pub virsh : Option String → List String → Exec W Output
  virsh uri args s =
      let (r, w) = h.virsh uri args s.world in
      (r, record { world = w; log = Action.virsh args ∷ s.log })

  unfoldable pub remove_file : String → Exec W (Unit {0})
  remove_file path s =
      let (r, w) = h.remove_file path s.world in
      (r, record { world = w; log = Action.remove_file path ∷ s.log })

  unfoldable pub setxattr : String → String → String → Exec W (Unit {0})
  setxattr path key value s =
      let (r, w) = h.setxattr path key value s.world in
      (r, record { world = w; log = Action.setxattr path key ∷ s.log })

  unfoldable pub create_dir_all : String → Exec W (Unit {0})
  create_dir_all path s =
      let (r, w) = h.create_dir_all path s.world in
      (r, record { world = w; log = Action.create_dir_all path ∷ s.log })

  unfoldable pub create_temp : String → String → String → Exec W String
  create_temp prefix suffix dir s =
      let (r, w) = h.create_temp prefix suffix dir s.world in
      (r, record { world = w; log = Action.create_temp dir ∷ s.log })

  unfoldable pub write_file : String → String → Exec W (Unit {0})
  write_file path text s =
      let (r, w) = h.write_file path text s.world in
      (r, record { world = w; log = Action.write_file path ∷ s.log })

  unfoldable pub persist : String → String → Exec W Persisted
  persist from to s =
      let (r, w) = h.persist from to s.world in
      (r, record { world = w; log = Action.persist from to ∷ s.log })

  -- what is read from the world and may fail
  unfoldable pub queries : {A : Type 0} → (W → Result A) → Exec W A
  queries f s = (f s.world, s)

-- `m` keeps `P`, whether it returns or fails.
pub record Keeps {W A : Type 0} (P : Machine W → Type 0) (m : Exec W A) : Type 0 where
  pub kept : (s : Machine W) → P s → P (m s).1

module _ {W A : Type 0} {P : Machine W → Type 0} where
  pub Keeps-pure : (a : A) → Keeps P (pure a)
  unfolding pure
  Keeps-pure a = record { kept = λ _ p. p }

  pub Keeps-fail : (e : String) → Keeps P (fail {A = A} e)
  unfolding fail
  Keeps-fail e = record { kept = λ _ p. p }

  pub Keeps-lift : (r : Result A) → Keeps P (lift r)
  unfolding lift
  Keeps-lift r = record { kept = λ _ p. p }

  pub Keeps-reads : (f : W → A) → Keeps P (reads f)
  unfolding reads
  Keeps-reads f = record { kept = λ _ p. p }

  pub Keeps-with_context : (m : Exec W A) (e : String) → Keeps P m → Keeps P (with_context m e)
  unfolding with_context
  Keeps-with_context m e k = record { kept = λ s h. k.kept s h }

  pub Keeps-map_err : (f : String → String) (m : Exec W A) → Keeps P m → Keeps P (map_err f m)
  unfolding map_err
  Keeps-map_err f m k = record { kept = λ s h. k.kept s h }

  pub Keeps-attempt : (m : Exec W A) → Keeps P m → Keeps P (attempt m)
  unfolding attempt
  Keeps-attempt m k = record { kept = λ s h. k.kept s h }

  pub Keeps-if : (b : Bool) (m n : Exec W A) → Keeps P m → Keeps P n → Keeps P (if b then m else n)
  Keeps-if true m n km kn = km
  Keeps-if false m n km kn = kn

module _ {W A B : Type 0} {P : Machine W → Type 0} where
  continue-at :
      (r : Result A) (f : A → Exec W B)
      → ((a : A) → Keeps P (f a))
      → (s : Machine W) → P s
      → P (continue r f s).1
  continue-at (ok a) f kf s h = (kf a).kept s h
  continue-at (err e) f kf s h = h

  pub Keeps-bind :
      (m : Exec W A) (f : A → Exec W B) → Keeps P m → ((a : A) → Keeps P (f a)) → Keeps P (m >>= f)
  unfolding ◌>>=◌
  Keeps-bind m f km kf = record {
    kept = λ s h. let (r, s') = m s in continue-at r f kf s' (km.kept s h);
  }

pub ruleset keeps_rules = (
  Keeps-pure, Keeps-fail, Keeps-lift, Keeps-reads, Keeps-with_context, Keeps-map_err, Keeps-attempt,
  Keeps-bind, Keeps-if,
)

-- Every call that has been made satisfies `P`.
pub record Logged {W : Type 0} (P : Action → Type 0) (s : Machine W) : Type 0 where
  pub calls : All P s.log

module _ {W : Type 0} (h : Host W) {P : Action → Type 0} where
  pub Logged-virsh :
      (uri : Option String) (args : List String)
      → P (Action.virsh args)
      → Keeps (Logged P) (virsh h uri args)
  unfolding virsh
  Logged-virsh uri args p = record { kept = λ s k. record { calls = (p, k.calls) } }

  pub Logged-remove_file :
      (path : String) → P (Action.remove_file path) → Keeps (Logged P) (remove_file h path)
  unfolding remove_file
  Logged-remove_file path p = record { kept = λ s k. record { calls = (p, k.calls) } }

  pub Logged-create_dir_all :
      (path : String) → P (Action.create_dir_all path) → Keeps (Logged P) (create_dir_all h path)
  unfolding create_dir_all
  Logged-create_dir_all path p = record { kept = λ s k. record { calls = (p, k.calls) } }

  pub Logged-create_temp :
      (prefix suffix dir : String)
      → P (Action.create_temp dir)
      → Keeps (Logged P) (create_temp h prefix suffix dir)
  unfolding create_temp
  Logged-create_temp prefix suffix dir p = record { kept = λ s k. record { calls = (p, k.calls) } }

  pub Logged-write_file :
      (path text : String) → P (Action.write_file path) → Keeps (Logged P) (write_file h path text)
  unfolding write_file
  Logged-write_file path text p = record { kept = λ s k. record { calls = (p, k.calls) } }

pub Keeps-queries :
    {W A : Type 0} {P : Machine W → Type 0} (h : Host W) (f : W → Result A) → Keeps P (queries h f)
unfolding queries
Keeps-queries h f = record { kept = λ s k. k }

-- Inversion of a block that has returned.
module _ {W A B : Type 0} where
  pub >>=-eq-ok :
      (m : Exec W A) (f : A → Exec W B) (s : Machine W) {b : B} {t : Machine W}
      → (m >>= f) s ≡ (ok b, t)
      → (a : A) × (u : Machine W) × (m s ≡ (ok a, u)) × (f a u ≡ (ok b, t))
  unfolding ◌>>=◌
  >>=-eq-ok m f s {b} {t} e = go (m s).0 (m s).1 refl e
    where
      go :
          (r : Result A) (u : Machine W)
          → m s ≡ (r, u)
          → continue r f u ≡ (ok b, t)
          → (a : A) × (u : Machine W) × (m s ≡ (ok a, u)) × (f a u ≡ (ok b, t))
      go (ok a) u p q = (a, u, p, q)
      go (err x) u p q = cc

pub reads-bind :
    {W B C : Type 0} (f : W → C) (k : C → Exec W B) (s : Machine W)
    → (reads f >>= k) s ≡ k (f s.world) s
unfolding ◌>>=◌
reads-bind f k s = refl

pub attempt-bind :
    {W A B : Type 0} (m : Exec W A) (k : Result A → Exec W B) (s : Machine W)
    → (attempt m >>= k) s ≡ k (m s).0 (m s).1
unfolding ◌>>=◌
attempt-bind m k s = refl

pub pure-eq-ok :
    {W A : Type 0} (a b : A) (s t : Machine W) → pure a s ≡ (ok b, t) → (a ≡ b) × (s ≡ t)
unfolding pure
pure-eq-ok a b s t e = (ground arith, ground arith)

-- the newest call
abbrev pub newest : {W : Type 0} → Machine W → Option Action
newest s = head? s.log
