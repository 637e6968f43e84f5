-- ===== src/RmAll.antt =====
-- crates/kit/src/libvirt/rm_all.rs: `bcvk libvirt rm-all`. What is printed is left out.
pub mod Tally
pub mod Safety
use bcvk.Common.{
  ℕ, ◌+◌, String, List, [], ◌∷◌, Option, none, some, Bool, true, false, not, ◌==◌, ◌||◌, ltb, eqb,
  format, if◌then◌else◌, to_string, is_empty,
}
use bcvk.Result.{Result, ok, err}
use bcvk.Host.{Host, Output}
use bcvk.Host.Exec.{
  Exec, pure, fail, lift, reads, with_context, attempt, virsh, remove_file, ◌>>=◌, ◌>>◌,
}
use bcvk.DomainList.{PodmanBootcDomain, is_running, list_bootc_domains}

-- `LibvirtRmAllOpts`
pub record LibvirtRmAllOpts : Type 0 where
  pub force : Bool
  pub stop : Bool
  pub label : Option String

-- `removed_count` and `error_count`
pub record Counts : Type 0 where
  pub removed : ℕ
  pub errors : ℕ

unfoldable pub has_label : String → List String → Bool
has_label label [] = false
has_label label (l ∷ rest) = l == label || has_label label rest

retain : String → List PodmanBootcDomain → List PodmanBootcDomain
retain label [] = []
retain label (d ∷ rest) =
    if has_label label d.labels then d ∷ retain label rest else retain label rest

unfoldable pub with_label : Option String → List PodmanBootcDomain → List PodmanBootcDomain
unfolding retain has_label
with_label none domains = domains
with_label (some label) domains = retain label domains

module _ {W : Type 0} (h : Host W) (connect_uri : Option String) where
  -- a disk that cannot be removed is only warned about
  unfoldable pub discard_disk : Option String → Exec W (Unit {0})
  discard_disk none = pure tt
  discard_disk (some disk_path) = do
    there ← reads (h.exists disk_path)
    if there then (do attempt (remove_file h disk_path); pure tt) else pure tt

  unfoldable pub undefine : String → Exec W Output
  undefine name =
      with_context (virsh h connect_uri ("undefine" ∷ name ∷ "--nvram" ∷ []))
        (format ("Failed to undefine domain '" ∷ name ∷ "'" ∷ []))

  unfoldable pub destroy : String → Exec W Output
  destroy name =
      with_context (virsh h connect_uri ("destroy" ∷ name ∷ []))
        (format ("Failed to stop VM '" ∷ name ∷ "'" ∷ []))

  unfoldable pub remove_domain : PodmanBootcDomain → Counts → Exec W Counts
  unfolding discard_disk undefine
  remove_domain domain c = do
    discard_disk domain.disk_path
    output ← undefine domain.name
    if output.success
        then pure (record c { removed = c.removed + 1 })
        else pure (record c { errors = c.errors + 1 })

  -- what follows `virsh destroy`, by its success
  unfoldable pub after_destroy : PodmanBootcDomain → Counts → Bool → Exec W Counts
  after_destroy domain c true = remove_domain domain c
  after_destroy domain c false = pure (record c { errors = c.errors + 1 })

  -- a running domain, with and without `--stop`
  unfoldable pub remove_running : Bool → PodmanBootcDomain → Counts → Exec W Counts
  remove_running true domain c = do
    output ← destroy domain.name
    after_destroy domain c output.success
  remove_running false domain c = pure (record c { errors = c.errors + 1 })

  -- one round of the loop, `continue` included
  unfoldable pub remove_one : Bool → PodmanBootcDomain → Counts → Exec W Counts
  remove_one stop domain c =
      if is_running domain then remove_running stop domain c else remove_domain domain c

  unfoldable pub remove_each : Bool → List PodmanBootcDomain → Counts → Exec W Counts
  remove_each stop [] c = pure c
  remove_each stop (domain ∷ rest) c = do c' ← remove_one stop domain c; remove_each stop rest c'

  abbrev pub summary : Counts → Exec W (Unit {0})
  summary c =
      if ltb 0 c.errors
      then fail (
          format (
            "Failed to remove "
            ∷ to_string c.errors
            ∷ " VM"
            ∷ (if eqb c.errors 1 then "" else "s")
            ∷ []))
      else pure tt

  unfoldable pub run : LibvirtRmAllOpts → Exec W (Unit {0})
  unfolding with_label
  run opts = do
    all_domains ←
        with_context (list_bootc_domains h connect_uri) "Failed to list bootc domains from libvirt"
    let domains = with_label opts.label all_domains
    if is_empty domains
        then pure tt
        else if not opts.force
        then pure tt
        else (do c ← remove_each opts.stop domains (record { removed = 0; errors = 0 }); summary c)
