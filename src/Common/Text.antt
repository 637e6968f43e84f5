-- ===== src/Common/Text.antt =====
-- The operations on text of Rust's standard library that the program uses, over native strings.
mod Decimal
pub mod Trim
pub mod Paths
pub mod Replace
pub mod Search
unfoldable pub use Decimal.*
use Prim.Native.Nat.{ℕ, zero, suc}
use Prim.Native.Char.{Char, code}
use Prim.Native.String
use Prim.Native.String.{String}
use mathlib.Core.Bool.{Bool, true, false, ◌&&◌, ◌||◌}
use mathlib.Core.List.{List, [], ◌∷◌}
use mathlib.Core.Option
use mathlib.Core.Option.{Option, none, some}
use text.Mathlib.Text.{◌==◌}
use bcvk.Common.Tests.{leb, eqb, is_some, if◌then◌else◌}

-- `format!`: its pieces, one after another
abbrev pub format : List String → String
format [] = ""
format (s ∷ []) = s
format (s ∷ t ∷ rest) = String.◌++◌ s (format (t ∷ rest))

-- `<[String]>::join`
unfoldable pub join : String → List String → String
join sep [] = ""
join sep (s ∷ []) = s
join sep (s ∷ t ∷ rest) = String.◌++◌ s (String.◌++◌ sep (join sep (t ∷ rest)))

abbrev pub is_empty_text : String → Bool
is_empty_text String.[] = true
is_empty_text (String.◌∷◌ c s) = false

-- `str::strip_prefix`
unfoldable pub strip_prefix : String → String → Option String
strip_prefix String.[] s = some s
strip_prefix (String.◌∷◌ c p) String.[] = none
strip_prefix (String.◌∷◌ c p) (String.◌∷◌ d s) =
    if eqb (code c) (code d) then strip_prefix p s else none

unfoldable pub starts_with : String → String → Bool
unfolding strip_prefix
starts_with p s = elim (strip_prefix p s) [ none ↦ false | some _ ↦ true ]

-- `str::contains`
unfoldable pub contains : String → String → Bool
unfolding starts_with
contains p String.[] = starts_with p ""
contains p (String.◌∷◌ c s) = starts_with p (String.◌∷◌ c s) || contains p s

-- `str::strip_suffix`: the text before the suffix, if it ends in it
unfoldable pub strip_suffix : String → String → Option String
strip_suffix p String.[] = if "" == p then some "" else none
strip_suffix p (String.◌∷◌ c s) =
    if String.◌∷◌ c s == p then some "" else Option.map (String.◌∷◌ c) (strip_suffix p s)

unfoldable pub ends_with : String → String → Bool
unfolding strip_suffix
ends_with p s = is_some (strip_suffix p s)

-- `char::is_whitespace`, Unicode's White_Space
unfoldable pub is_whitespace : Char → Bool
is_whitespace c =
    let n = code c in
    (leb 9 n && leb n 13)
    || eqb n 32
    || eqb n 0x85
    || eqb n 0xa0
    || eqb n 0x1680
    || (leb 0x2000 n && leb n 0x200a)
    || eqb n 0x2028
    || eqb n 0x2029
    || eqb n 0x202f
    || eqb n 0x205f
    || eqb n 0x3000

unfoldable pub trim_start : String → String
trim_start String.[] = ""
trim_start (String.◌∷◌ c s) = if is_whitespace c then trim_start s else String.◌∷◌ c s

unfoldable pub trim_end : String → String
trim_end String.[] = ""
trim_end (String.◌∷◌ c s) =
    let rest = trim_end s in if is_empty_text rest && is_whitespace c then "" else String.◌∷◌ c rest

unfoldable pub trim : String → String
unfolding trim_start trim_end is_whitespace
trim s = trim_end (trim_start s)

-- `str::split_once` at a character
unfoldable pub split_once : Char → String → Option (String × String)
split_once d String.[] = none
split_once d (String.◌∷◌ c s) =
    if eqb (code c) (code d)
    then some ("", s)
    else Option.map (λ r. (String.◌∷◌ c r.0, r.1)) (split_once d s)

-- `str::rsplit_once` at a character
unfoldable pub rsplit_once : Char → String → Option (String × String)
rsplit_once d String.[] = none
rsplit_once d (String.◌∷◌ c s) = elim (rsplit_once d s) [
  | some r ↦ some (String.◌∷◌ c r.0, r.1)
  | none ↦ if eqb (code c) (code d) then some ("", s) else none
]

-- `str::split` at a character: at least one part
unfoldable pub push_front : Char → List String → List String
push_front c [] = String.◌∷◌ c "" ∷ []
push_front c (s ∷ rest) = String.◌∷◌ c s ∷ rest

unfoldable pub split : Char → String → List String
unfolding push_front
split d String.[] = "" ∷ []
split d (String.◌∷◌ c s) =
    if eqb (code c) (code d) then "" ∷ split d s else push_front c (split d s)

unfoldable pub any_char : (Char → Bool) → String → Bool
any_char p String.[] = false
any_char p (String.◌∷◌ c s) = p c || any_char p s

unfoldable pub filter_chars : (Char → Bool) → String → String
filter_chars p String.[] = ""
filter_chars p (String.◌∷◌ c s) =
    let rest = filter_chars p s in if p c then String.◌∷◌ c rest else rest

-- `str::replace` of a character by a text
unfoldable pub replace : Char → String → String → String
replace d with String.[] = ""
replace d with (String.◌∷◌ c s) =
    let rest = replace d with s in
    if eqb (code c) (code d) then String.◌++◌ with rest else String.◌∷◌ c rest

unfoldable pub map_chars : (Char → Char) → String → String
map_chars f String.[] = ""
map_chars f (String.◌∷◌ c s) = String.◌∷◌ (f c) (map_chars f s)

-- the first characters, `chars().take(n)`
unfoldable pub take_chars : ℕ → String → String
take_chars zero s = ""
take_chars (suc n) String.[] = ""
take_chars (suc n) (String.◌∷◌ c s) = String.◌∷◌ c (take_chars n s)

-- `str::lines`: the parts between line feeds, without a carriage return at the end of one that a
-- line feed ended, and without a last part that is empty
ended_line : String → String
ended_line s = elim (strip_suffix "\r" s) [ none ↦ s | some line ↦ line ]

lines_of : List String → List String
lines_of [] = []
lines_of (last ∷ []) = if is_empty_text last then [] else last ∷ []
lines_of (s ∷ t ∷ rest) = ended_line s ∷ lines_of (t ∷ rest)

unfoldable pub lines : String → List String
unfolding ended_line lines_of
lines s = lines_of (split "\n" s)
