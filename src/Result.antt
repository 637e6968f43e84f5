-- ===== src/Result.antt =====
-- `color_eyre::Result`: a value, or a report with the text of its outermost message.
use bcvk.Common.{◌≡◌, refl, String, Option, none, some, Bool, true, false}

pub data Result {ℓ} (A : Type ℓ) : Type ℓ where
  ok : A → Result A
  err : String → Result A

module _ {ℓ} {A : Type ℓ} where
  -- `Option::ok_or_else`
  abbrev pub ok_or : Option A → String → Result A
  ok_or (some value) _ = ok value
  ok_or none message = err message

  -- `Context::context`: the report of an error shows the new message
  abbrev pub context : Result A → String → Result A
  context (err _) message = err message
  context (ok value) _ = ok value

  -- `Result::is_ok`
  abbrev pub is_ok : Result A → Bool
  is_ok (err _) = false
  is_ok (ok _) = true

-- `if !condition { return Err(message) }`
abbrev pub ensure : Bool → String → Result (Unit {0})
ensure condition message = elim condition [ true ↦ ok tt | false ↦ err message ]

module _ {ℓ κ} {A : Type ℓ} {B : Type κ} where
  infixl 5 ◌>>=◌ ◌>>◌
  -- the question mark operator
  abbrev pub ◌>>=◌ : Result A → (A → Result B) → Result B
  err report >>= next = err report
  ok value >>= next = next value

  abbrev pub ◌>>◌ : Result A → Result B → Result B
  first >> second = first >>= λ _. second

  pub >>=-eq-ok :
      (r : Result A) (next : A → Result B) {b : B}
      → (r >>= next) ≡ ok b
      → (value : A) × (r ≡ ok value) × (next value ≡ ok b)
  >>=-eq-ok (err report) next e = cc
  >>=-eq-ok (ok value) next e = (value, refl, e)
