-- ===== src/Run/Outcome.antt =====
-- What `bcvk libvirt run` (crates/kit/src/libvirt/run.rs) comes to.
use bcvk.Common.{Char, String, Bool, true, false, Option, some, List, ◌≡◌, refl, ◌⊎◌, inl, inr}
use bcvk.Result.{Result, ok}
use bcvk.Host.{Machine}
use bcvk.Host.Exec.{Exec, fail, ◌>>=◌}
use bcvk.Host.Fails.{Fails, Fails-bind, Fails-lift, Fails-after}
use bcvk.DomainList.{list_all_domains}
use bcvk.Cache.{CacheInputs}
use bcvk.ToDisk.{ToDiskOpts}
use bcvk.RunOptions.Names.{contains_name}
use bcvk.StartStop.{LibvirtSshOpts}
use bcvk.Run.{LibvirtRunOpts, RunHost}
use bcvk.Run.Command.{vm_name_of, replace_or_fail, named, run}
use bcvk.Run.Defined.{Defined}

module _ {W : Type 0} (r : RunHost W) (uri : Option String) where
  taken :
      (P : Machine W → Type 0) (is_alphanumeric : Char → Bool) (opts : LibvirtRunOpts)
      (existing : List String) (name : String) (s : Machine W)
      → opts.replace ≡ false
      → contains_name name existing ≡ true
      → P s
      → Fails P (vm_name_of r uri is_alphanumeric opts existing (some name)) s
  unfolding vm_name_of replace_or_fail fail ◌>>=◌
  taken P is_alphanumeric opts existing name s kept there p = record {
    failed = rw (there, kept) refl;
    left = rw (there, kept) p;
  }

  named-Fails :
      (P : Machine W → Type 0) (is_alphanumeric : Char → Bool) (opts : LibvirtRunOpts)
      (existing : List String) (name : String) (s u : Machine W)
      → opts.name ≡ some name
      → opts.replace ≡ false
      → list_all_domains r.host uri s ≡ (ok existing, u)
      → contains_name name existing ≡ true
      → P s
      → P u
      → Fails P (named r uri is_alphanumeric opts) s
  unfolding named
  named-Fails P is_alphanumeric opts existing name s u given kept listed there p q =
      Fails-lift _ _ s p (λ _. Fails-lift _ _ s p (λ _.
        Fails-after (list_all_domains r.host uri) _ _ s u existing listed
          (rw given (taken P is_alphanumeric opts existing name u kept there q))))

-- Without `--replace`, a name that a listed domain has is refused: the command fails, and when it
-- does, nothing has been done but the listing, or nothing at all where an option is refused first.
pub run-taken :
    {W : Type 0} (r : RunHost W) (uri : Option String) (hash_of : CacheInputs → String)
    (to_disk : ToDiskOpts → Exec W (Unit {0})) (wait : String → Exec W (Unit {0}))
    (ssh : LibvirtSshOpts → Exec W (Unit {0})) (is_alphanumeric : Char → Bool)
    (opts : LibvirtRunOpts) (existing : List String) (name : String) (s u : Machine W)
    → opts.name ≡ some name
    → opts.replace ≡ false
    → list_all_domains r.host uri s ≡ (ok existing, u)
    → contains_name name existing ≡ true
    → Fails (λ t. (t ≡ s) ⊎ (t ≡ u)) (run r uri hash_of to_disk wait ssh is_alphanumeric opts) s
unfolding run
run-taken r uri hash_of to_disk wait ssh is_alphanumeric opts existing name s u given kept listed
      there =
    Fails-bind _ _ s (
      named-Fails r uri _ is_alphanumeric opts existing name s u given kept listed there (inl refl)
        (inr refl))
