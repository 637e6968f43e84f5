-- ===== src/Ephemeral/LogDirs.antt =====
-- What the value of `--log-dir` says (crates/kit/src/run_ephemeral.rs).
use Prim.Native.String
use text.Mathlib.TextEquality.{Char-path}
use text.Mathlib.TextLemmas.{nil-append, cons-append}
use bcvk.Common.{
  format, Char, code, String, Bool, true, false, ◌||◌, Option, none, some, List, [], ◌∷◌, ◌≡◌, refl,
  ap, arith, ◌==◌, if◌then◌else◌, any, any_char, is_empty_text, rsplit_once, trim, split, eqb,
  eqb→eq, eq_iff, sym, ◌∙◌, subst,
}
use bcvk.Result.{Result, ok, err, ◌>>=◌, >>=-eq-ok}
use bcvk.Ephemeral.{LogDir, streams, log_dir, from_str}

-- The text has this character.
abbrev pub has : Char → String → Bool
has d s = any_char (λ c. eqb (code c) (code d)) s

rsplit_once-eq-none : (d : Char) (s : String) → rsplit_once d s ≡ none → has d s ≡ false
unfolding rsplit_once any_char
rsplit_once-eq-none d String.[] h = refl
rsplit_once-eq-none d (String.◌∷◌ c s) h = tail (rsplit_once-eq-none d s) (rsplit_once d s) refl h
  where
    tail :
        (rsplit_once d s ≡ none → has d s ≡ false)
        → (r : Option (String × String)) → rsplit_once d s ≡ r
        → ◌≡◌ {A = Option (String × String)}
            (elim r [
              | some q ↦ some (String.◌∷◌ c q.0, q.1)
              | none ↦ if eqb (code c) (code d) then some ("", s) else none
            ])
            none
        → has d (String.◌∷◌ c s) ≡ false
    tail before (some q) e k = cc
    tail before none e k = let ih = before e in ground arith

at_head :
    (c d : Char) (s : String) (parts : String × String) (b : Bool)
    → eqb (code c) (code d) ≡ b
    → has d s ≡ false
    → (if b then some ("", s) else none) ≡ some parts
    → (String.◌∷◌ c s ≡ String.◌++◌ parts.0 (String.◌∷◌ d parts.1)) × (has d parts.1 ≡ false)
at_head c d s parts true e n k =
    let same : ("", s) ≡ parts = cc in
    let d_is : c ≡ d = Char-path c d (eqb→eq (code c) (code d) e) in
    subst (λ x. (String.◌∷◌ c s ≡ String.◌++◌ x.0 (String.◌∷◌ d x.1)) × (has d x.1 ≡ false)) same
      (rw nil-append (ap (λ x. String.◌∷◌ x s) d_is), n)
at_head c d s parts false e n k = cc

rsplit_once-eq-some :
    (d : Char) (s : String) (parts : String × String)
    → rsplit_once d s ≡ some parts
    → (s ≡ String.◌++◌ parts.0 (String.◌∷◌ d parts.1)) × (has d parts.1 ≡ false)
unfolding rsplit_once
rsplit_once-eq-some d String.[] parts h = cc
rsplit_once-eq-some d (String.◌∷◌ c s) parts h =
    tail (rsplit_once-eq-some d s) (rsplit_once d s) refl h
  where
    tail :
        ((q : String × String)
          → rsplit_once d s ≡ some q
          → (s ≡ String.◌++◌ q.0 (String.◌∷◌ d q.1)) × (has d q.1 ≡ false))
        → (r : Option (String × String)) → rsplit_once d s ≡ r
        → ◌≡◌ {A = Option (String × String)}
            (elim r [
              | some q ↦ some (String.◌∷◌ c q.0, q.1)
              | none ↦ if eqb (code c) (code d) then some ("", s) else none
            ])
            (some parts)
        → (String.◌∷◌ c s ≡ String.◌++◌ parts.0 (String.◌∷◌ d parts.1)) × (has d parts.1 ≡ false)
    tail before (some q) e k =
        let (whole, rest) = before q e in
        let same : (String.◌∷◌ c q.0, q.1) ≡ parts = cc in
        subst (λ x. (String.◌∷◌ c s ≡ String.◌++◌ x.0 (String.◌∷◌ d x.1)) × (has d x.1 ≡ false))
          same (rw cons-append (ap (String.◌∷◌ c) whole), rest)
    tail before none e k =
        at_head c d s parts (eqb (code c) (code d)) refl (rsplit_once-eq-none d s e) k

-- The stream is one of those between the commas.
abbrev pub asks : String → String → Bool
asks stream text = any (λ part. trim part == stream) (split "," text)

one_stream : (t : String) → (t == "journal") ≡ true → (t == "console") ≡ false
one_stream t h = let x : t ≡ "journal" = ground (arith, eq_iff t "journal") in rw x refl

clash : {P : Type 0} → false ≡ true → P
clash h = cc

module _ (quoted : String → String) where
  streams-any :
      (j c : Bool) (parts : List String) (r : Bool × Bool)
      → streams quoted j c parts ≡ ok r
      → (r.0 ≡ (j || any (λ p. trim p == "journal") parts))
        × (r.1 ≡ (c || any (λ p. trim p == "console") parts))
  unfolding streams
  streams-any j c [] r h = let same : (j, c) ≡ r = cc in rw (← same) (ground arith)
  streams-any j c (p ∷ rest) r h =
      step (λ x y. streams-any x y rest r) (trim p) (trim p == "journal") (trim p == "console")
        (is_empty_text (trim p)) _ refl refl refl h
    where
      step :
          ((x y : Bool)
            → streams quoted x y rest ≡ ok r
            → (r.0 ≡ (x || any (λ q. trim q == "journal") rest))
              × (r.1 ≡ (y || any (λ q. trim q == "console") rest)))
          → (t : String) (a b e : Bool) (message : String) → (t == "journal") ≡ a
          → (t == "console") ≡ b
          → is_empty_text t ≡ e
          → (if a
              then streams quoted true c rest
              else if b
              then streams quoted j true rest
              else if e
              then streams quoted j c rest
              else err message)
            ≡ ok r
          → (r.0 ≡ (j || (a || any (λ q. trim q == "journal") rest)))
            × (r.1 ≡ (c || (b || any (λ q. trim q == "console") rest)))
      step ih t true true e message u v w k = clash (sym (one_stream t u) ∙ v)
      step ih t true false e message u v w k =
          let (x, y) = ih true c k in (ground arith, ground arith)
      step ih t false true e message u v w k =
          let (x, y) = ih j true k in (ground arith, ground arith)
      step ih t false false true message u v w k = ih j c k
      step ih t false false false message u v w k = cc

  -- What a value says when it is read: its last `=` stands before the path.
  pub record Reads (s : String) (l : LogDir) : Type 0 where
    pub streams_str : String
    pub cut : s ≡ String.◌++◌ streams_str (String.◌∷◌ "=" l.path)
    pub last : has "=" l.path ≡ false
    pub some_path : is_empty_text l.path ≡ false
    pub journal : l.journal ≡ asks "journal" streams_str
    pub console : l.console ≡ asks "console" streams_str
    pub some_stream : (l.journal || l.console) ≡ true

  read-Reads :
      (s a b : String) (j c : Bool)
      → s ≡ String.◌++◌ a (String.◌∷◌ "=" b)
      → has "=" b ≡ false
      → is_empty_text b ≡ false
      → streams quoted false false (split "," a) ≡ ok (j, c)
      → (j || c) ≡ true
      → Reads s (record { path = b; journal = j; console = c })
  read-Reads s a b j c p n e g some_stream =
      let (journal, console) = streams-any false false (split "," a) (j, c) g in
      record {
        streams_str = a;
        cut = p;
        last = n;
        some_path = e;
        journal = journal;
        console = console;
        some_stream = some_stream;
      }

  log_dir-Reads :
      (s a b : String) (j c : Bool) (l : LogDir)
      → s ≡ String.◌++◌ a (String.◌∷◌ "=" b)
      → has "=" b ≡ false
      → is_empty_text b ≡ false
      → streams quoted false false (split "," a) ≡ ok (j, c)
      → log_dir quoted a b (j, c) ≡ ok l
      → Reads s l
  unfolding log_dir
  log_dir-Reads s a b false false l p n e g h = cc
  log_dir-Reads s a b true c l p n e g h =
      let same : record { path = b; journal = true; console = c } ≡ l = cc in
      subst (Reads s) same (read-Reads s a b true c p n e g refl)
  log_dir-Reads s a b false true l p n e g h =
      let same : record { path = b; journal = false; console = true } ≡ l = cc in
      subst (Reads s) same (read-Reads s a b false true p n e g refl)

  cut-Reads :
      (s a b message : String) (e : Bool) (l : LogDir)
      → s ≡ String.◌++◌ a (String.◌∷◌ "=" b)
      → has "=" b ≡ false
      → is_empty_text b ≡ e
      → (if e then err message else streams quoted false false (split "," a) >>= log_dir quoted a b)
        ≡ ok l
      → Reads s l
  cut-Reads s a b message true l p n e h = cc
  cut-Reads s a b message false l p n e h =
      let ((j, c), g, k) = >>=-eq-ok (streams quoted false false (split "," a)) _ h in
      log_dir-Reads s a b j c l p n e g k

-- A value of `--log-dir` that is read is its streams, an `=` and its path, which is not empty and
-- has no `=`: the path begins after the last one. The streams that are asked for are those between
-- the commas, without the white space around them, and there is at least one. (So no path with an
-- `=` can be given, where a comment in the source says that the cut at the last one supports that.)
pub from_str-Reads :
    (quoted : String → String) (s : String) (l : LogDir)
    → from_str quoted s ≡ ok l
    → Reads quoted s l
unfolding from_str
from_str-Reads quoted s l h = parted (rsplit_once "=" s) refl h
  where
    parted :
        (r : Option (String × String))
        → rsplit_once "=" s ≡ r
        → ◌≡◌ {A = Result LogDir}
            (elim r [
              | none ↦ err (
                  format (
                    "--log-dir value must have the form STREAMS=PATH (no `=` found): "
                    ∷ quoted s
                    ∷ []))
              | some parts ↦
                  if is_empty_text parts.1
                  then err (format ("--log-dir PATH must not be empty: " ∷ quoted s ∷ []))
                  else streams quoted false false (split "," parts.0)
                    >>= log_dir quoted parts.0 parts.1
            ])
            (ok l)
        → Reads quoted s l
    parted none e k = cc
    parted (some parts) e k =
        let (whole, last) = rsplit_once-eq-some "=" s parts e in
        cut-Reads quoted s parts.0 parts.1 _ (is_empty_text parts.1) l whole last refl k
