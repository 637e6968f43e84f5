-- ===== src/RunOptions/Names.antt =====
-- crates/kit/src/libvirt/run.rs: `generate_unique_vm_name`. `is_alphanumeric` is the standard
-- library's table of characters.
use text.Mathlib.TextLemmas.{append_inj, append-nil, cons-append, cons≢nil}
use bcvk.Common.{
  ℕ, zero, suc, ◌+◌, ◌<◌, ◌≤◌, Char, code, String, List, [], ◌∷◌, Option, none, some, Bool, true,
  false, ◌≡◌, ◌≢◌, refl, sym, ◌∙◌, ap, arith, inl, inr, Bool-cases, ◌==◌, ◌||◌, eq_iff, eqb, leb,
  if◌then◌else◌, format, to_string, to_string-inj, split, map_chars, length,
}

-- what follows the last slash, and of that what comes before the first colon
last_of : String → List String → String
last_of s [] = s
last_of s (t ∷ rest) = last_of t rest

first_of : List String → String
first_of [] = ""
first_of (s ∷ _) = s

unfoldable pub image_name : String → String
unfolding last_of first_of
image_name image = first_of (split ":" (last_of "" (split "/" image)))

unfoldable pub sanitize : (Char → Bool) → Char → Char
sanitize is_alphanumeric c =
    if is_alphanumeric c || eqb (code c) 45 || eqb (code c) 95 then c else "-"

unfoldable pub contains_name : String → List String → Bool
contains_name candidate [] = false
contains_name candidate (d ∷ rest) = d == candidate || contains_name candidate rest

abbrev pub numbered : String → ℕ → String
numbered sanitized counter = format (sanitized ∷ "-" ∷ to_string counter ∷ [])

-- the `while` loop, with a bound on its rounds
unfoldable pub unique_from : ℕ → String → ℕ → String → List String → Option String
unique_from zero sanitized counter candidate existing = none
unique_from (suc fuel) sanitized counter candidate existing =
    let rest =
      unique_from fuel sanitized (counter + 1) (numbered sanitized (counter + 1)) existing in
    if contains_name candidate existing then rest else some candidate

unfoldable pub generate_unique_vm_name : (Char → Bool) → ℕ → String → List String → Option String
unfolding image_name sanitize unique_from
generate_unique_vm_name is_alphanumeric fuel image existing =
    let sanitized = map_chars (sanitize is_alphanumeric) (image_name image) in
    unique_from fuel sanitized 1 sanitized existing

-- The candidate of a round, by its counter.
abbrev candidate_at : String → ℕ → String
candidate_at sanitized counter = if leb counter 1 then sanitized else numbered sanitized counter

numbered-inj : (s : String) (m n : ℕ) → numbered s m ≡ numbered s n → m ≡ n
numbered-inj s m n e =
    let (_, tail) = append_inj {s₁ = s} {s₂ = s} e refl in
    let (_, digits) = append_inj {s₁ = "-"} {s₂ = "-"} tail refl in to_string-inj m n digits

numbered-ne : (s : String) (n : ℕ) → s ≢ numbered s n
numbered-ne s n e =
    let (_, tail) = append_inj {s₁ = s} {s₂ = s} {t₁ = ""} (append-nil s ∙ e) refl in
    cons≢nil (sym (tail ∙ cons-append "-" "" (to_string n)))

candidates-ne : (s : String) (i j : ℕ) → 1 ≤ i → i < j → candidate_at s i ≢ candidate_at s j
candidates-ne s i j p q e =
    let late : leb j 1 ≡ false = ground arith in
    elim (Bool-cases (leb i 1)) [
      | inl first ↦ numbered-ne s j (rw late at (rw first at e))
      | inr later ↦
          let same = numbered-inj s i j (rw late at (rw later at e)) in omega (arith, same, q)
    ]

-- all the names but one
without : String → List String → List String
without x [] = []
without x (d ∷ rest) = let more = without x rest in if d == x then more else d ∷ more

contains-without :
    (x y : String) (ds : List String) → x ≢ y → contains_name y (without x ds) ≡ contains_name y ds
unfolding without contains_name
contains-without x y [] n = refl
contains-without x y (d ∷ ds) n =
    let ih = contains-without x y ds n in ground (arith, ih, eq_iff d x, eq_iff d y)

without-le : (x : String) (ds : List String) → length (without x ds) ≤ length ds
unfolding without
without-le x [] = omega arith
without-le x (d ∷ ds) = let ih = without-le x ds in ground (arith, ih)

without-lt :
    (x : String) (ds : List String) → contains_name x ds ≡ true → length (without x ds) < length ds
unfolding without contains_name
without-lt x [] e = cc
without-lt x (d ∷ ds) e = elim (Bool-cases (d == x)) [
  | inl same ↦ let le = without-le x ds in ground (arith, le)
  | inr other ↦ let ih = without-lt x ds (ground arith) in ground (arith, ih)
]

-- the loop from a counter on
abbrev from_counter : ℕ → String → ℕ → List String → Option String
from_counter fuel s i existing = unique_from fuel s i (candidate_at s i) existing

-- the loop, by its rounds
next_round :
    (fuel : ℕ) (s : String) (i : ℕ) (ds : List String)
    → 1 ≤ i
    → from_counter (suc fuel) s i ds ≡ (
        if contains_name (candidate_at s i) ds
        then from_counter fuel s (i + 1) ds
        else some (candidate_at s i))
unfolding unique_from
next_round fuel s i ds p = let late : leb (i + 1) 1 ≡ false = ground arith in rw late refl

-- A name that is no longer a candidate does not matter.
from_counter-without :
    (fuel : ℕ) (s : String) (i j : ℕ) (ds : List String)
    → 1 ≤ i
    → i < j
    → from_counter fuel s j (without (candidate_at s i) ds) ≡ from_counter fuel s j ds
unfolding unique_from
from_counter-without zero s i j ds p q = refl
from_counter-without (suc fuel) s i j ds p q =
    let gone = without (candidate_at s i) ds in
    let ih = from_counter-without fuel s i (j + 1) ds p (omega (arith, q)) in
    let same =
      contains-without (candidate_at s i) (candidate_at s j) ds (candidates-ne s i j p q) in
    next_round fuel s j gone (omega (arith, p, q))
    ∙ ap (λ b. if b then from_counter fuel s (j + 1) gone else some (candidate_at s j)) same
    ∙ ap (λ r. if contains_name (candidate_at s j) ds then r else some (candidate_at s j)) ih
    ∙ sym (next_round fuel s j ds (omega (arith, p, q)))

-- a name that is not taken
abbrev pub Fresh : List String → Option String → Type 0
Fresh ds r = (name : String) × (r ≡ some name) × (contains_name name ds ≡ false)

untaken :
    (fuel : ℕ) (s : String) (i : ℕ) (candidate name : String) (ds : List String)
    → unique_from fuel s i candidate ds ≡ some name
    → contains_name name ds ≡ false
unfolding unique_from
untaken zero s i candidate name ds e = cc
untaken (suc fuel) s i candidate name ds e =
    let ih = untaken fuel s (i + 1) (numbered s (i + 1)) name ds in
    elim (Bool-cases (contains_name candidate ds)) [
      | inl taken ↦ ih (rw taken at e)
      | inr free ↦ ground arith
    ]

ends :
    (fuel : ℕ) (s : String) (i : ℕ) (ds : List String)
    → 1 ≤ i
    → length ds < fuel
    → (name : String) × from_counter fuel s i ds ≡ some name
ends zero s i ds p q = absurd (omega (arith, q))
ends (suc fuel) s i ds p q =
    let x = candidate_at s i in
    let round = next_round fuel s i ds p in
    elim (Bool-cases (contains_name x ds)) [
      | inr free ↦ (x, round ∙ ap (λ b. if b then from_counter fuel s (i + 1) ds else some x) free)
      | inl taken ↦
          let shorter = without-lt x ds taken in
          let (name, found) =
            ends fuel s (i + 1) (without x ds) (omega arith) (omega (arith, shorter, q)) in
          let same = from_counter-without fuel s i (i + 1) ds p (omega arith) in
          (
            name,
            round
                ∙ ap (λ b. if b then from_counter fuel s (i + 1) ds else some x) taken
                ∙ sym same
                ∙ found,
          )
    ]

-- The search for a name ends within one round more than there are domains, with a name that none of
-- them has.
pub generate_unique_vm_name-Fresh :
    (is_alphanumeric : Char → Bool) (fuel : ℕ) (image : String) (existing : List String)
    → length existing < fuel
    → Fresh existing (generate_unique_vm_name is_alphanumeric fuel image existing)
unfolding generate_unique_vm_name
generate_unique_vm_name-Fresh is_alphanumeric fuel image existing q =
    let s = map_chars (sanitize is_alphanumeric) (image_name image) in
    let (name, found) = ends fuel s 1 existing (omega arith) q in
    (name, found, untaken fuel s 1 s name existing found)
