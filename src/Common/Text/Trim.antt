-- ===== src/Common/Text/Trim.antt =====
-- A text that begins with digits is not changed by `trim`, if its end is not.
use Prim.Native.String
use Prim.Native.String.{String}
use mathlib.Core.Path.{◌≡◌, refl}
use mathlib.Core.Logic.{◌≢◌}
use mathlib.Core.Bool.{false}
use Prim.Native.Nat.{◌≤◌}
use Prim.Native.Char.{Char, code}
use native.Mathlib.Omega.{arith}
use text.Mathlib.TextLemmas.{nil-append, cons-append}
use bcvk.Common.Text.{trim, trim_start, trim_end, is_whitespace}
use bcvk.Common.Text.Decimal.{IsDigits}

digit-not-whitespace : (c : Char) → 48 ≤ code c → code c ≤ 57 → is_whitespace c ≡ false
unfolding is_whitespace
digit-not-whitespace c h k = ground arith

trim_end-digits :
    (s q : String) → IsDigits s → trim_end q ≡ q → trim_end (String.◌++◌ s q) ≡ String.◌++◌ s q
unfolding trim_end
trim_end-digits String.[] q d h = rw nil-append h
trim_end-digits (String.◌∷◌ c s) q d h =
    let w = digit-not-whitespace c d.0.0 d.0.1 in
    let ih = trim_end-digits s q d.1 h in rw cons-append (rw (ih, w) (ground arith))

pub trim-digits :
    (s q : String) → s ≢ "" → IsDigits s → trim_end q ≡ q → trim (String.◌++◌ s q) ≡ String.◌++◌ s q
unfolding trim
trim-digits String.[] q ne d h = absurd (ne refl)
trim-digits (String.◌∷◌ c s) q ne d h =
    let w = digit-not-whitespace c d.0.0 d.0.1 in
    rw (trim_start-digit c s q w) (trim_end-digits (String.◌∷◌ c s) q d h)
  where
    trim_start-digit :
        (c : Char) (s q : String)
        → is_whitespace c ≡ false
        → trim_start (String.◌++◌ (String.◌∷◌ c s) q) ≡ String.◌++◌ (String.◌∷◌ c s) q
    trim_start-digit c s q w = rw cons-append (rw w)
