-- ===== src/Credentials/UnitNames.antt =====
-- The names of mount units (crates/bcvk-qemu/src/credentials.rs) tell paths apart.
use Prim.Native.String
use text.Mathlib.TextLemmas.{
  nil-append, cons-append, append_assoc, append_cancel_left, append_cancel_right,
  head-eq_of_cons-eq, tail-eq_of_cons-eq, nil≢cons,
}
use text.Mathlib.TextEquality.{Char-path}
use bcvk.Common.{
  String, Char, code, Bool, true, false, List, [], ◌∷◌, map, join, split, push_front, replace,
  strip_prefix, any_char, eqb, ℕ, ◌≡◌, ◌≢◌, refl, sym, ap, ◌∙◌, arith, if◌then◌else◌, Bool-cases,
  inl, inr, format,
}
use bcvk.Credentials.{escape_path, guest_path_to_unit_name}

-- what becomes of a character
letter : Char → String
letter c =
    if eqb (code c) (code "/")
    then "-"
    else if eqb (code c) (code "-")
    then "\\x2d"
    else String.◌∷◌ c ""

encode : String → String
unfolding letter
encode String.[] = ""
encode (String.◌∷◌ c s) = String.◌++◌ (letter c) (encode s)

join-append :
    (sep x s : String) (rest : List String)
    → join sep (String.◌++◌ x s ∷ rest) ≡ String.◌++◌ x (join sep (s ∷ rest))
unfolding join
join-append sep x s [] = refl
join-append sep x s (t ∷ rest) = append_assoc x s _

abbrev escaped : String → String
escaped = replace "-" "\\x2d"

escaped-cons :
    (c : Char) (s : String)
    → eqb (code c) (code "/") ≡ false
    → escaped (String.◌∷◌ c s) ≡ String.◌++◌ (letter c) (escaped s)
unfolding replace letter
escaped-cons c s h = elim (Bool-cases (eqb (code c) (code "-"))) [
  | inl dash ↦ rw (h, dash) refl
  | inr other ↦ rw (h, other) (rw (cons-append, nil-append) refl)
]

-- The parts of a path, of which there is one at least, and its text with the slashes and dashes as
-- they are written.
Same : List String → String → Type 0
Same [] text = ⊥
Same (p ∷ rest) text = join "-" (map escaped (p ∷ rest)) ≡ text

split-Same : (s : String) → Same (split "/" s) (encode s)
unfolding split push_front join replace Same encode
split-Same String.[] = refl
split-Same (String.◌∷◌ c s) =
    consumed c (split "/" s) (encode s) (eqb (code c) (code "/")) refl (split-Same s)
  where
    consumed :
        (c : Char) (parts : List String) (text : String) (b : Bool)
        → eqb (code c) (code "/") ≡ b
        → Same parts text
        → Same (if b then "" ∷ parts else push_front c parts) (String.◌++◌ (letter c) text)
    consumed c [] text b h t = absurd t
    consumed c (p ∷ rest) text true h t = rw (letter, h) (nil-append _ ∙ ap (String.◌++◌ "-") t)
    consumed c (p ∷ rest) text false h t =
        ap (λ first. join "-" (first ∷ map escaped rest)) (escaped-cons c p h)
        ∙ join-append "-" (letter c) (escaped p) (map escaped rest)
        ∙ ap (String.◌++◌ (letter c)) t

escape_path-encode : (s : String) → escape_path s ≡ encode s
unfolding escape_path Same
escape_path-encode s = shown (split "/" s) (split-Same s)
  where
    shown : (parts : List String) → Same parts (encode s) → join "-" (map escaped parts) ≡ encode s
    shown [] t = absurd t
    shown (p ∷ rest) t = t

-- No text is a path with a backslash.
abbrev is_backslash : Char → Bool
is_backslash c = eqb (code c) (code "\\")

abbrev pub Plain : String → Type 0
Plain path = any_char is_backslash path ≡ false

-- the first character of a letter's text, and what follows that
first : Char → Char
first c = if eqb (code c) (code "/") then "-" else if eqb (code c) (code "-") then "\\" else c

after : Bool → String → String
after true x = String.◌++◌ "x2d" x
after false x = x

is_dash : Char → Bool
is_dash c = eqb (code c) (code "-")

letter-first :
    (c : Char) (x : String) → String.◌++◌ (letter c) x ≡ String.◌∷◌ (first c) (after (is_dash c) x)
unfolding letter first after is_dash
letter-first c x = elim (Bool-cases (eqb (code c) (code "/"))) [
  | inl slash ↦
      let no_dash : eqb (code c) (code "-") ≡ false = ground arith in
      rw (slash, no_dash) (rw (cons-append, nil-append) refl)
  | inr other ↦ elim (Bool-cases (eqb (code c) (code "-"))) [
    | inl dash ↦ rw (other, dash) (cons-append "\\" "x2d" x)
    | inr plain ↦ rw (other, plain) (rw (cons-append, nil-append) refl)
  ]
]

first_code : ℕ → ℕ
first_code n = if eqb n 47 then 45 else if eqb n 45 then 92 else n

code-first : (c : Char) → code (first c) ≡ first_code (code c)
unfolding first first_code
code-first c = both (eqb (code c) (code "/")) (eqb (code c) (code "-"))
  where
    both :
        (a b : Bool)
        → code (if a then "-" else if b then "\\" else c)
          ≡ (if a then 45 else if b then 92 else code c)
    both true b = refl
    both false true = refl
    both false false = refl

first_code-injective :
    (m n : ℕ) → eqb m 92 ≡ false → eqb n 92 ≡ false → first_code m ≡ first_code n → m ≡ n
unfolding first_code
first_code-injective m n p q h = ground arith

first-injective :
    (c d : Char) → is_backslash c ≡ false → is_backslash d ≡ false → first c ≡ first d → c ≡ d
first-injective c d p q h =
    Char-path c d
      (first_code-injective (code c) (code d) p q (sym (code-first c) ∙ ap code h ∙ code-first d))

after-injective : (b : Bool) (x y : String) → after b x ≡ after b y → x ≡ y
unfolding after
after-injective true x y h = append_cancel_left "x2d" x y h
after-injective false x y h = h

Plain-parts : (c : Char) (s : String) → Plain (String.◌∷◌ c s) → (is_backslash c ≡ false) × Plain s
unfolding any_char
Plain-parts c s h = ground arith

encode-injective : (s t : String) → Plain s → Plain t → encode s ≡ encode t → s ≡ t
unfolding encode
encode-injective String.[] String.[] p q h = refl
encode-injective String.[] (String.◌∷◌ d t) p q h =
    absurd (nil≢cons (h ∙ letter-first d (encode t)))
encode-injective (String.◌∷◌ c s) String.[] p q h =
    absurd (nil≢cons (sym h ∙ letter-first c (encode s)))
encode-injective (String.◌∷◌ c s) (String.◌∷◌ d t) p q h =
    let (pc, ps) = Plain-parts c s p in
    let (qd, qt) = Plain-parts d t q in
    let e = sym (letter-first c (encode s)) ∙ h ∙ letter-first d (encode t) in
    let same = first-injective c d pc qd (head-eq_of_cons-eq e) in
    let rest =
      after-injective (is_dash d) (encode s) (encode t)
        (ap (λ z. after (is_dash z) (encode s)) (sym same) ∙ tail-eq_of_cons-eq e) in
    rw same (ap (String.◌∷◌ d) (encode-injective s t ps qt rest))

unit_name-encode :
    (s : String) → guest_path_to_unit_name (format ("/" ∷ s ∷ [])) ≡ String.◌++◌ (encode s) ".mount"
unfolding guest_path_to_unit_name strip_prefix
unit_name-encode s =
    rw (cons-append "/" "" s, nil-append) (ap (λ e. String.◌++◌ e ".mount") (escape_path-encode s))

-- Different absolute paths without a backslash have different mount units.
pub guest_path_to_unit_name-distinct :
    (s t : String)
    → Plain s
    → Plain t
    → s ≢ t
    → guest_path_to_unit_name (format ("/" ∷ s ∷ []))
      ≢ guest_path_to_unit_name (format ("/" ∷ t ∷ []))
guest_path_to_unit_name-distinct s t p q n = λ h. n (
    encode-injective s t p q (
      append_cancel_right (encode s) (encode t) ".mount"
        (sym (unit_name-encode s) ∙ h ∙ unit_name-encode t)))
