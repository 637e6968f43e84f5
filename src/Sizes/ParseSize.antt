-- ===== src/Sizes/ParseSize.antt =====
-- `parse_size` (crates/kit/src/utils.rs) reads what a number and a unit say, modulo 2⁶⁴.
use Prim.Native.String
use Prim.Native.String.{String}
use mathlib.Core.Option
use text.Mathlib.TextLemmas.{nil-append, cons-append, append-nil, cons-eq-cons}
use bcvk.Common.{
  ℕ, ◌*◌, ◌%◌, ◌^◌, ◌<◌, ◌≤◌, Char, code, Option, none, some, false, ◌≡◌, refl, sym, ◌≢◌, ◌==◌,
  eq_iff, ap, arith, List, [], ◌∷◌, All, Bool-cases, Option-cases, inl, inr, is_empty_text, eqb,
  is_whitespace, trim_end, strip_suffix, map_chars, IsDigits, to_string, to_string-IsDigits,
  to_string-ne-empty, parse_uint-to_string, format,
}
use bcvk.Common.Text.Trim.{trim-digits}
use bcvk.Result.{ok}
use bcvk.Sizes.{
  parse_size, size_units, split_unit, to_uppercase, times_unit, upper_from, upper_letters,
}

-- A text that begins with no digit.
abbrev IsWord : String → Type 0
IsWord String.[] = ⊥
IsWord (String.◌∷◌ c s) = 57 < code c

differs : (c : Char) (s p : String) → code c ≤ 57 → IsWord p → (String.◌∷◌ c s == p) ≡ false
differs c s String.[] h w = absurd w
differs c s (String.◌∷◌ d p) h w = elim (Bool-cases (String.◌∷◌ c s == String.◌∷◌ d p)) [
  | inl same ↦
      let e : code c ≡ code d = ap code (cons-eq-cons.0 ((eq_iff _ _).0 same)).0 in
      absurd (omega (arith, e))
  | inr other ↦ other
]

map-nil : (o : Option String) → o ≡ Option.map (λ r. String.◌++◌ "" r) o
map-nil none = refl
map-nil (some r) = ap some (sym (nil-append r))

map-cons :
    (c : Char) (s : String) (o : Option String)
    → Option.map (String.◌∷◌ c) (Option.map (λ r. String.◌++◌ s r) o)
      ≡ Option.map (λ r. String.◌++◌ (String.◌∷◌ c s) r) o
map-cons c s none = refl
map-cons c s (some r) = ap some (sym (cons-append c s r))

strip_suffix-digits :
    (p s q : String)
    → IsDigits s
    → IsWord p
    → strip_suffix p (String.◌++◌ s q) ≡ Option.map (λ r. String.◌++◌ s r) (strip_suffix p q)
unfolding strip_suffix
strip_suffix-digits p String.[] q d w = rw nil-append (map-nil (strip_suffix p q))
strip_suffix-digits p (String.◌∷◌ c s) q d w = rw cons-append (
    rw (differs c (String.◌++◌ s q) p d.0.1 w, strip_suffix-digits p s q d.1 w)
      (map-cons c s (strip_suffix p q)))

upper_from-digit :
    (t : List (Char × Char)) (c : Char)
    → All (λ e. 57 < code e.0) t
    → code c ≤ 57
    → upper_from t c ≡ c
unfolding upper_from
upper_from-digit [] c a h = refl
upper_from-digit ((l, u) ∷ t) c a h =
    let e : eqb (code c) (code l) ≡ false = ground arith in rw e (upper_from-digit t c a.1 h)

letters_above : All (λ e. 57 < code e.0) upper_letters
unfolding upper_letters
letters_above = omega arith

to_uppercase-digits :
    (s q : String) → IsDigits s → to_uppercase (String.◌++◌ s q) ≡ String.◌++◌ s (to_uppercase q)
unfolding to_uppercase map_chars
to_uppercase-digits String.[] q d = simp nil-append
to_uppercase-digits (String.◌∷◌ c s) q d =
    simp (
      cons-append,
      upper_from-digit upper_letters c letters_above d.0.1,
      to_uppercase-digits s q d.1,
    )

split_unit-digits :
    (t : List (String × ℕ)) (s q : String)
    → IsDigits s
    → All (λ u. IsWord u.0) t
    → split_unit t (String.◌++◌ s q) ≡ (String.◌++◌ s (split_unit t q).0, (split_unit t q).1)
unfolding split_unit
split_unit-digits [] s q d w = refl
split_unit-digits ((p, m) ∷ t) s q d w = elim (Option-cases (strip_suffix p q)) [
  | inl none_here ↦
      rw (strip_suffix-digits p s q d w.0, none_here, split_unit) (split_unit-digits t s q d w.1)
  | inr (r, found) ↦ rw (strip_suffix-digits p s q d w.0, found, split_unit)
]

abbrev IsUnit : String → ℕ → Type 0
IsUnit u m = (trim_end u ≡ u) × (split_unit size_units (to_uppercase u) ≡ ("", m))

size_units-IsWord : All (λ u. IsWord u.0) size_units
size_units-IsWord = omega arith

not_empty : (s q : String) → s ≢ "" → is_empty_text (String.◌++◌ s q) ≡ false
not_empty String.[] q ne = absurd (ne refl)
not_empty (String.◌∷◌ c s) q ne = rw cons-append

parse_size-unit :
    (n m : ℕ) (u : String)
    → n < 2 ^ 64
    → IsUnit u m
    → parse_size (String.◌++◌ (to_string n) u) ≡ ok (n * m % 2 ^ 64)
unfolding parse_size
parse_size-unit n m u h unit =
    let d = to_string-IsDigits n in
    let ne = to_string-ne-empty n in
    simp
      (
        trim-digits (to_string n) u ne d unit.0,
        to_uppercase-digits (to_string n) u d,
        not_empty (to_string n) (to_uppercase u) ne,
        split_unit-digits size_units (to_string n) (to_uppercase u) d size_units-IsWord,
        unit.1,
        append-nil,
      )
      (rw (parse_uint-to_string 64 n h, times_unit))

-- What each suffix means, by its power of 1024.
abbrev pub documented_units : List (String × ℕ)
documented_units =
    ("", 0)
    ∷ ("B", 0)
    ∷ ("b", 0)
    ∷ ("K", 1)
    ∷ ("k", 1)
    ∷ ("KB", 1)
    ∷ ("kb", 1)
    ∷ ("M", 2)
    ∷ ("m", 2)
    ∷ ("MB", 2)
    ∷ ("mb", 2)
    ∷ ("G", 3)
    ∷ ("g", 3)
    ∷ ("GB", 3)
    ∷ ("gb", 3)
    ∷ ("T", 4)
    ∷ ("t", 4)
    ∷ ("TB", 4)
    ∷ ("tb", 4)
    ∷ []

All-map :
    {P Q : String × ℕ → Type 0}
    → ((u : String × ℕ) → P u → Q u)
    → (us : List (String × ℕ)) → All P us
    → All Q us
All-map f [] h = tt
All-map f (u ∷ us) h = (f u h.0, All-map f us h.1)

documented_units-IsUnit : All (λ u. IsUnit u.0 (1024 ^ u.1)) documented_units
unfolding trim_end split_unit to_uppercase map_chars strip_suffix is_whitespace
documented_units-IsUnit = (
  (refl, refl),
  (
    (refl, refl),
    (
      (refl, refl),
      (
        (refl, refl),
        (
          (refl, refl),
          (
            (refl, refl),
            (
              (refl, refl),
              (
                (refl, refl),
                (
                  (refl, refl),
                  (
                    (refl, refl),
                    (
                      (refl, refl),
                      (
                        (refl, refl),
                        (
                          (refl, refl),
                          (
                            (refl, refl),
                            (
                              (refl, refl),
                              ((refl, refl), ((refl, refl), ((refl, refl), ((refl, refl), tt)))),
                            ),
                          ),
                        ),
                      ),
                    ),
                  ),
                ),
              ),
            ),
          ),
        ),
      ),
    ),
  ),
)

-- A number below 2⁶⁴ in decimal digits, with any of the documented suffixes or none, is read as
-- that number times the power of 1024 that the suffix stands for, modulo 2⁶⁴: exactly, where the
-- product fits, and wrapped around, with no error, where it does not.
pub parse_size-documented :
    (n : ℕ)
    → n < 2 ^ 64
    → All
        (λ u. parse_size (format (to_string n ∷ u.0 ∷ [])) ≡ ok (n * 1024 ^ u.1 % 2 ^ 64))
        documented_units
parse_size-documented n h =
    All-map (λ u. parse_size-unit n (1024 ^ u.1) u.0 h) documented_units documented_units-IsUnit
