-- ===== src/Common/Text/Decimal.antt =====
-- Decimal numerals: Rust's `Display` and `FromStr` of the unsigned integers.
use Prim.Native.Nat.{ℕ, zero, suc, ◌+◌, ◌-◌, ◌*◌, ◌/◌, ◌%◌, ◌<◌, ◌≤◌, ◌^◌}
use Prim.Native.Char.{Char, code}
use Prim.Native.String.{String}
use mathlib.Core.Path.{◌≡◌, refl, ap, ◌∙◌}
use mathlib.Core.Logic.{◌≢◌, inl, inr}
use mathlib.Core.Bool.{Bool, ◌&&◌}
use mathlib.Core.Option.{Option, none, some}
use text.Mathlib.TextLemmas.{cons≢nil}
use native.Mathlib.Omega.{arith}
use bcvk.Common.Tests.{ltb, leb, eqb, if◌then◌else◌, Bool-cases}

digit_char : ℕ → Char
digit_char zero = "0"
digit_char (suc zero) = "1"
digit_char (suc (suc zero)) = "2"
digit_char (suc (suc (suc zero))) = "3"
digit_char (suc (suc (suc (suc zero)))) = "4"
digit_char (suc (suc (suc (suc (suc zero))))) = "5"
digit_char (suc (suc (suc (suc (suc (suc zero)))))) = "6"
digit_char (suc (suc (suc (suc (suc (suc (suc zero))))))) = "7"
digit_char (suc (suc (suc (suc (suc (suc (suc (suc zero)))))))) = "8"
digit_char _ = "9"

-- the digits of `n` before `rest`; a numeral of `n` has at most `n + 1` digits
show_from : ℕ → ℕ → String → String
show_from zero n rest = rest
show_from (suc fuel) n rest =
    let more = show_from fuel (n / 10) (String.◌∷◌ (digit_char (n % 10)) rest) in
    if ltb n 10 then String.◌∷◌ (digit_char (n % 10)) rest else more

unfoldable pub to_string : ℕ → String
unfolding show_from digit_char
to_string n = show_from (suc n) n ""

is_digit : Char → Bool
is_digit c = leb b'0' (code c) && leb (code c) b'9'

digits_from : ℕ → String → Option ℕ
digits_from n String.[] = some n
digits_from n (String.◌∷◌ c s) =
    let more = digits_from (n * 10 + (code c - b'0')) s in if is_digit c then more else none

within : ℕ → Option ℕ → Option ℕ
within width none = none
within width (some n) = if ltb n (2 ^ width) then some n else none

-- `str::parse` at an unsigned integer of `width` bits: digits, after at most one `+`
unfoldable pub parse_uint : ℕ → String → Option ℕ
unfolding digits_from is_digit within
parse_uint width String.[] = none
parse_uint width (String.◌∷◌ c String.[]) = within width (digits_from 0 (String.◌∷◌ c ""))
parse_uint width (String.◌∷◌ c (String.◌∷◌ d s)) =
    if eqb (code c) b'+'
    then within width (digits_from 0 (String.◌∷◌ d s))
    else within width (digits_from 0 (String.◌∷◌ c (String.◌∷◌ d s)))

code-digit_char : (d : ℕ) → d < 10 → code (digit_char d) ≡ 48 + d
unfolding digit_char
code-digit_char zero h = refl
code-digit_char (suc zero) h = refl
code-digit_char (suc (suc zero)) h = refl
code-digit_char (suc (suc (suc zero))) h = refl
code-digit_char (suc (suc (suc (suc zero)))) h = refl
code-digit_char (suc (suc (suc (suc (suc zero))))) h = refl
code-digit_char (suc (suc (suc (suc (suc (suc zero)))))) h = refl
code-digit_char (suc (suc (suc (suc (suc (suc (suc zero))))))) h = refl
code-digit_char (suc (suc (suc (suc (suc (suc (suc (suc zero)))))))) h = refl
code-digit_char (suc (suc (suc (suc (suc (suc (suc (suc (suc zero))))))))) h = refl
code-digit_char (suc (suc (suc (suc (suc (suc (suc (suc (suc (suc d)))))))))) h =
    absurd (omega arith)

digits_from-digit :
    (n d : ℕ) (s : String)
    → d < 10
    → digits_from n (String.◌∷◌ (digit_char d) s) ≡ digits_from (n * 10 + d) s
unfolding digits_from is_digit
digits_from-digit n d s h =
    let e : code (digit_char d) ≡ 48 + d = code-digit_char d h in
    let k : n * 10 + (code (digit_char d) - 48) ≡ n * 10 + d = omega (arith, e) in
    rw k (ground (arith, e))

digits_from-show_from :
    (fuel n : ℕ) (rest : String)
    → n < fuel
    → digits_from 0 (show_from fuel n rest) ≡ digits_from n rest
unfolding show_from
digits_from-show_from zero n rest h = absurd (omega arith)
digits_from-show_from (suc fuel) n rest h = elim (Bool-cases (ltb n 10)) [
  | inl small ↦ rw small (
      let e : 0 * 10 + n % 10 ≡ n = ground arith in
      digits_from-digit 0 (n % 10) rest (omega arith) ∙ rw e)
  | inr large ↦ rw large (
      let e : n / 10 * 10 + n % 10 ≡ n = omega arith in
      digits_from-show_from fuel (n / 10) (String.◌∷◌ (digit_char (n % 10)) rest) (ground arith)
      ∙ digits_from-digit (n / 10) (n % 10) rest (omega arith)
      ∙ rw e)
]

digits_from-to_string : (n : ℕ) → digits_from 0 (to_string n) ≡ some n
unfolding to_string digits_from
digits_from-to_string n = digits_from-show_from (suc n) n "" (omega arith)

-- What is read fits.
within-lt : (width n : ℕ) (o : Option ℕ) → within width o ≡ some n → n < 2 ^ width
unfolding within
within-lt width n none h = cc
within-lt width n (some m) h = ground arith

pub parse_uint-lt : (width : ℕ) (s : String) (n : ℕ) → parse_uint width s ≡ some n → n < 2 ^ width
unfolding parse_uint
parse_uint-lt width String.[] n h = cc
parse_uint-lt width (String.◌∷◌ c String.[]) n h = within-lt width n _ h
parse_uint-lt width (String.◌∷◌ c (String.◌∷◌ d s)) n h = ground (
  arith,
  within-lt width n (digits_from 0 (String.◌∷◌ d s)),
  within-lt width n (digits_from 0 (String.◌∷◌ c (String.◌∷◌ d s))),
)

-- A text that reads as digits does not begin with a sign.
parse_uint-digits :
    (width n : ℕ) (s : String)
    → n < 2 ^ width
    → s ≢ ""
    → digits_from 0 s ≡ some n
    → parse_uint width s ≡ some n
unfolding parse_uint within
parse_uint-digits width n String.[] h ne e = absurd (ne refl)
parse_uint-digits width n (String.◌∷◌ c String.[]) h ne e = rw e (ground arith)
parse_uint-digits width n (String.◌∷◌ c (String.◌∷◌ d s)) h ne e = ground arith

show_from-ne-empty : (fuel n : ℕ) (rest : String) → rest ≢ "" → show_from fuel n rest ≢ ""
unfolding show_from
show_from-ne-empty zero n rest h = h
show_from-ne-empty (suc fuel) n rest h = elim (Bool-cases (ltb n 10)) [
  | inl small ↦ rw small cons≢nil
  | inr large ↦ rw large (show_from-ne-empty fuel (n / 10) _ cons≢nil)
]

pub to_string-ne-empty : (n : ℕ) → to_string n ≢ ""
unfolding to_string show_from
to_string-ne-empty n = elim (Bool-cases (ltb n 10)) [
  | inl small ↦ rw small cons≢nil
  | inr large ↦ rw large (show_from-ne-empty n (n / 10) _ cons≢nil)
]

-- What is printed is read back, when it fits.
pub parse_uint-to_string : (width n : ℕ) → n < 2 ^ width → parse_uint width (to_string n) ≡ some n
parse_uint-to_string width n h =
    parse_uint-digits width n _ h (to_string-ne-empty n) (digits_from-to_string n)

-- A text of decimal digits, and no other character.
abbrev pub IsDigits : String → Type 0
IsDigits String.[] = Unit
IsDigits (String.◌∷◌ c s) = ((48 ≤ code c) × (code c ≤ 57)) × IsDigits s

digit_char-in_range : (d : ℕ) → d < 10 → (48 ≤ code (digit_char d)) × (code (digit_char d) ≤ 57)
digit_char-in_range d h = let e = code-digit_char d h in (omega (arith, e), omega (arith, e))

show_from-IsDigits : (fuel n : ℕ) (rest : String) → IsDigits rest → IsDigits (show_from fuel n rest)
unfolding show_from
show_from-IsDigits zero n rest r = r
show_from-IsDigits (suc fuel) n rest r =
    let d = digit_char-in_range (n % 10) (omega arith) in
    elim (Bool-cases (ltb n 10)) [
      | inl small ↦ rw small (d, r)
      | inr large ↦ rw large (show_from-IsDigits fuel (n / 10) _ (d, r))
    ]

pub to_string-IsDigits : (n : ℕ) → IsDigits (to_string n)
unfolding to_string
to_string-IsDigits n = show_from-IsDigits (suc n) n "" tt

pub to_string-inj : (m n : ℕ) → to_string m ≡ to_string n → m ≡ n
to_string-inj m n e =
    let a = digits_from-to_string m in
    let b = digits_from-to_string n in
    let c : digits_from 0 (to_string m) ≡ digits_from 0 (to_string n) = ap (digits_from 0) e in cc
