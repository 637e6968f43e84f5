-- ===== src/Common/Text/Replace.antt =====
-- `str::replace` of Rust's standard library.
use Prim.Native.String
use bcvk.Common.Text.{starts_with}
use bcvk.Common.{ℕ, zero, suc, String, true, false}

abbrev chars : String → ℕ
chars String.[] = zero
chars (String.◌∷◌ c s) = suc (chars s)

-- `skipped` more characters are of a place that was found.
unfoldable replace_from : ℕ → String → String → String → String
replace_from skipped from to String.[] = ""
replace_from (suc k) from to (String.◌∷◌ c s) = replace_from k from to s
replace_from zero from to (String.◌∷◌ c s) = elim (starts_with from (String.◌∷◌ c s)) [
  | true ↦ elim (chars from) [
    | zero ↦ String.◌∷◌ c (replace_from zero from to s)
    | suc k ↦ String.◌++◌ to (replace_from k from to s)
  ]
  | false ↦ String.◌∷◌ c (replace_from zero from to s)
]

-- of a text that is not empty
unfoldable pub replace : String → String → String → String
unfolding replace_from
replace from to text = replace_from zero from to text
