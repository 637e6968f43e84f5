-- ===== src/Ephemeral/DiskFiles/Existing.antt =====
-- Disk files that are there are left as they are (crates/kit/src/run_ephemeral.rs).
use bcvk.Common.{
  ℕ, String, Bool, true, false, List, [], ◌∷◌, ◌≡◌, refl, sym, ◌∙◌, All, not, if◌then◌else◌,
  is_empty, starts_with,
}
use bcvk.Result.{Result, ok, err}
use bcvk.Host.{Machine}
use bcvk.Host.Exec.{Exec, continue, pure, fail, lift, reads, with_context, ◌>>=◌}
use bcvk.Ephemeral.DiskFiles.{
  Format, parse_disk_spec, DiskHost, asks, check_regular, check_or_create, absolute, process_file,
  process_each, process_disk_files,
}

module _ {W : Type 0} (s : Machine W) where
  -- The machine is afterwards what it was.
  abbrev Stays : {A : Type 0} → Exec W A → Type 0
  Stays m = (m s).1 ≡ s

  continue-Stays :
      {A B : Type 0} (r : Result A) (f : A → Exec W B) (t : Machine W)
      → t ≡ s
      → ((a : A) → r ≡ ok a → Stays (f a))
      → (continue r f t).1 ≡ s
  continue-Stays (ok a) f t same k = rw same (k a refl)
  continue-Stays (err e) f t same k = same

  bind-Stays :
      {A B : Type 0} (m : Exec W A) (f : A → Exec W B)
      → Stays m
      → ((a : A) → (m s).0 ≡ ok a → Stays (f a))
      → Stays (m >>= f)
  unfolding ◌>>=◌
  bind-Stays m f h k = continue-Stays (m s).0 f (m s).1 h k

  if-Stays :
      {A : Type 0} (b : Bool) (m n : Exec W A) → Stays m → Stays n → Stays (if b then m else n)
  if-Stays true m n h k = h
  if-Stays false m n h k = k

  module _ (h : DiskHost W) where
    -- The file of a specification is there.
    abbrev pub IsThere : String → Type 0
    IsThere spec =
        (file name : String) (f : Format)
        → parse_disk_spec spec ≡ ok (file, name, f)
        → h.exists file s.world ≡ true

    check_regular-Stays : (file : String) → Stays (check_regular h file)
    unfolding check_regular asks with_context pure fail
    check_regular-Stays file =
        bind-Stays _ _ refl (λ is_file _. if-Stays (not is_file) _ _ refl refl)

    absolute-Stays : (file : String) → Stays (absolute h file)
    unfolding absolute asks pure
    absolute-Stays file = if-Stays (starts_with "/" file) _ _ refl refl

    process_file-Stays :
        (size : ℕ) (file name : String) (f : Format)
        → h.exists file s.world ≡ true
        → Stays (process_file h size (file, name, f))
    unfolding process_file check_or_create reads pure
    process_file-Stays size file name f there = bind-Stays _ _ refl (λ b e.
        bind-Stays (check_or_create h size file b) _ (found b (ok_injective e))
          (λ _ _. bind-Stays _ _ (absolute-Stays file) (λ _ _. refl)))
      where
        ok_injective : {b : Bool} → ok (h.exists file s.world) ≡ ok b → b ≡ true
        ok_injective {b} e = let same : h.exists file s.world ≡ b = cc in sym same ∙ there

        found : (b : Bool) → b ≡ true → Stays (check_or_create h size file b)
        found true e = check_regular-Stays file
        found false e = cc

    process_each-Stays :
        (size : ℕ) (specs : List String) → All IsThere specs → Stays (process_each h size specs)
    unfolding process_each lift pure
    process_each-Stays size [] _ = refl
    process_each-Stays size (spec ∷ rest) (there, more) = bind-Stays _ _ refl (λ parsed e.
        bind-Stays _ _ (process_file-Stays size parsed.0 parsed.1 parsed.2 (there _ _ _ e))
          (λ disk _. bind-Stays _ _ (process_each-Stays size rest more) (λ _ _. refl)))

-- Where the files of all specifications that can be read are there, processing them makes no call
-- that changes something and leaves the world as it is, whatever it comes to: no file is created,
-- emptied or given another length.
pub process_disk_files-existing :
    {W : Type 0} (h : DiskHost W) (specs : List String) (image : String) (s : Machine W)
    → All (IsThere s h) specs
    → (process_disk_files h specs image s).1 ≡ s
unfolding process_disk_files asks pure
process_disk_files-existing h specs image s there =
    if-Stays s (is_empty specs) _ _ refl
      (bind-Stays s _ _ refl (λ size _. process_each-Stays s h _ specs there))
