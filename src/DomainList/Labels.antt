-- ===== src/DomainList/Labels.antt =====
-- The labels of a domain: what `bcvk libvirt run` writes (crates/kit/src/libvirt/run.rs) and what the
-- listing reads back (crates/kit/src/domain_list.rs).
use Prim.Native.String
use text.Mathlib.TextLemmas.{nil-append, cons-append}
use bcvk.Common.{
  String, List, [], ◌∷◌, some, false, ◌≡◌, refl, ap, sym, ◌∙◌, arith, All, any_char, join, split,
  trim, is_empty_text,
}
use bcvk.Result.{ok}
use bcvk.DomainList.{split_labels, drop_blank}
use bcvk.RunOptions.{is_comma, validate_labels, label_metadata}

split-plain : (l : String) → any_char is_comma l ≡ false → split "," l ≡ l ∷ []
unfolding any_char split
split-plain String.[] e = refl
split-plain (String.◌∷◌ c s) e =
    let ih = split-plain s (ground arith) in
    let plain : is_comma c ≡ false = ground arith in rw plain (rw ih refl)

split-head :
    (l r : String)
    → any_char is_comma l ≡ false
    → split "," (String.◌++◌ l (String.◌++◌ "," r)) ≡ l ∷ split "," r
unfolding any_char split
split-head String.[] r e = rw (nil-append, cons-append, nil-append) refl
split-head (String.◌∷◌ c s) r e =
    let ih = split-head s r (ground arith) in
    let plain : is_comma c ≡ false = ground arith in rw cons-append (rw plain (rw ih refl))

abbrev Plain : String → Type 0
Plain l = any_char is_comma l ≡ false

split-join :
    (l : String) (ls : List String) → All Plain (l ∷ ls) → split "," (join "," (l ∷ ls)) ≡ l ∷ ls
unfolding join
split-join l [] (p, _) = split-plain l p
split-join l (m ∷ ms) (p, q) =
    split-head l (join "," (m ∷ ms)) p ∙ ap (λ r. l ∷ r) (split-join m ms q)

validated-Plain : (ls : List String) → validate_labels ls ≡ ok tt → All Plain ls
unfolding validate_labels
validated-Plain [] e = tt
validated-Plain (l ∷ ls) e = (ground arith, validated-Plain ls (ground arith))

-- what trimming and dropping blanks leaves as it is
abbrev pub IsTrimmed : String → Type 0
IsTrimmed l = (trim l ≡ l) × (is_empty_text l ≡ false)

drop_blank-trimmed : (ls : List String) → All IsTrimmed ls → drop_blank ls ≡ ls
unfolding drop_blank
drop_blank-trimmed [] t = refl
drop_blank-trimmed (l ∷ ls) ((a, b), t) = rw a (rw b (ap (λ r. l ∷ r) (drop_blank-trimmed ls t)))

-- Labels that pass the check of `run`, none of which is blank or has blanks around it, are read back
-- by the listing from the text that `run` puts into the domain's metadata.
pub split_labels-label_metadata :
    (l : String) (ls : List String) (text : String)
    → validate_labels (l ∷ ls) ≡ ok tt
    → All IsTrimmed (l ∷ ls)
    → label_metadata (l ∷ ls) ≡ some text
    → split_labels text ≡ l ∷ ls
unfolding split_labels label_metadata
split_labels-label_metadata l ls text v t m =
    let same : join "," (l ∷ ls) ≡ text = ground arith in
    ap (λ x. drop_blank (split "," x)) (sym same)
    ∙ ap drop_blank (split-join l ls (validated-Plain (l ∷ ls) v))
    ∙ drop_blank-trimmed (l ∷ ls) t
