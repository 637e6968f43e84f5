-- ===== src/Rm/Outcome.antt =====
-- What a removal (crates/kit/src/libvirt/rm.rs) has done when it returns, and when it fails.
use bcvk.Common.{
  String, [], ◌∷◌, Option, some, Bool, true, false, not, ◌&&◌, ◌≡◌, ◌≢◌, refl, format, arith, ◌==◌,
  eq_iff, inl, inr, Bool-cases, if◌then◌else◌,
}
use bcvk.Result.{ok, err}
use bcvk.Host.{Host, Machine, Action}
use bcvk.Host.Exec.{virsh, remove_file, ◌>>=◌, pure, fail, >>=-eq-ok, newest}
use bcvk.DomainList.{PodmanBootcDomain}
use bcvk.Rm.{remove_vm_impl, remove_stopped, remove_disk, undefine, destroy}

abbrev pub undefine_call : String → Action
undefine_call vm = Action.virsh ("undefine" ∷ vm ∷ "--nvram" ∷ "--remove-all-storage" ∷ [])

abbrev pub destroy_call : String → Action
destroy_call vm = Action.virsh ("destroy" ∷ vm ∷ [])

-- The call that removes the domain: `destroy`, after which a transient domain is gone, or
-- `undefine` with its firmware variables and storage.
abbrev pub removing_call : String → String → Bool → Action
removing_call vm state is_persistent =
    if state == "running" && not is_persistent then destroy_call vm else undefine_call vm

module _ {W : Type 0} (h : Host W) (uri : Option String) (vm : String) where
  undefine-newest :
      (s t : Machine W) → undefine h uri vm s ≡ (ok tt, t) → newest t ≡ some (undefine_call vm)
  unfolding undefine virsh ◌>>=◌
  undefine-newest s t e = ground arith

  destroy-newest :
      (s t : Machine W) → destroy h uri vm s ≡ (ok tt, t) → newest t ≡ some (destroy_call vm)
  unfolding destroy virsh ◌>>=◌
  destroy-newest s t e = ground arith

  module _ (info : PodmanBootcDomain) (s : Machine W) where
    remove_stopped-newest :
        (t : Machine W)
        → remove_stopped h uri vm info s ≡ (ok tt, t)
        → newest t ≡ some (undefine_call vm)
    unfolding remove_stopped
    remove_stopped-newest t e =
        let (_, s1, _, e1) = >>=-eq-ok _ _ s e in
        let (_, s2, _, e2) = >>=-eq-ok _ _ s1 e1 in undefine-newest s2 t e2

  module _ (info : PodmanBootcDomain) (s t : Machine W) where
    after_destroy :
        (is_persistent : Bool) (u : Machine W)
        → destroy h uri vm s ≡ (ok tt, u)
        → (if is_persistent then remove_stopped h uri vm info else pure tt) u ≡ (ok tt, t)
        → newest t ≡ some (removing_call vm "running" is_persistent)
    unfolding pure
    after_destroy true u d e = remove_stopped-newest info u t e
    after_destroy false u d e = destroy-newest s t (ground arith)

    removes_running :
        (is_persistent stop : Bool)
        → remove_vm_impl h uri vm "running" is_persistent info stop s ≡ (ok tt, t)
        → newest t ≡ some (removing_call vm "running" is_persistent)
    unfolding remove_vm_impl fail
    removes_running is_persistent true e =
        let (_, u, d, e') = >>=-eq-ok _ _ s e in after_destroy is_persistent u d e'
    removes_running is_persistent false e = cc

    removes_stopped :
        (state : String) (is_persistent stop : Bool)
        → (state == "running") ≡ false
        → remove_vm_impl h uri vm state is_persistent info stop s ≡ (ok tt, t)
        → newest t ≡ some (removing_call vm state is_persistent)
    unfolding remove_vm_impl
    removes_stopped state is_persistent stop stopped e =
        rw stopped (remove_stopped-newest info s t (rw stopped at e))

-- When a removal returns without an error, its newest call is the one that removes the domain: for
-- a running transient domain `destroy`, and for any other `undefine` with its storage.
pub remove_vm_impl-removes :
    {W : Type 0} (h : Host W) (uri : Option String) (vm state : String) (is_persistent : Bool)
    (info : PodmanBootcDomain) (stop : Bool) (s t : Machine W)
    → remove_vm_impl h uri vm state is_persistent info stop s ≡ (ok tt, t)
    → newest t ≡ some (removing_call vm state is_persistent)
remove_vm_impl-removes h uri vm state is_persistent info stop s t e =
    elim (Bool-cases (state == "running")) [
      | inr stopped ↦ removes_stopped h uri vm info s t state is_persistent stop stopped e
      | inl running ↦
          let q : state ≡ "running" = (eq_iff state "running").0 running in
          rw q (removes_running h uri vm info s t is_persistent stop (rw q at e))
    ]

-- A removal that may not stop a running domain fails, and leaves the world and the calls as they were.
pub remove_vm_impl-running :
    {W : Type 0} (h : Host W) (uri : Option String) (vm : String) (is_persistent : Bool)
    (info : PodmanBootcDomain) (s : Machine W)
    → remove_vm_impl h uri vm "running" is_persistent info false s
      ≡ (err (format ("VM '" ∷ vm ∷ "' is running. Cannot remove without stopping." ∷ [])), s)
unfolding remove_vm_impl fail
remove_vm_impl-running h uri vm is_persistent info s = refl

-- Where the disk file of a domain that does not run is there and cannot be removed, the removal
-- fails with that message before libvirt is asked to undefine the domain: the attempt on the disk
-- is the only call.
pub remove_vm_impl-disk_first :
    {W : Type 0} (h : Host W) (uri : Option String) (vm state path e : String)
    (is_persistent stop : Bool) (info : PodmanBootcDomain) (s : Machine W)
    → state ≢ "running"
    → info.disk_path ≡ some path
    → h.exists path s.world ≡ true
    → (h.remove_file path s.world).0 ≡ err e
    → remove_vm_impl h uri vm state is_persistent info stop s ≡ (
      err (format ("Failed to remove disk file: " ∷ path ∷ [])),
      record { world = (h.remove_file path s.world).1; log = Action.remove_file path ∷ s.log },
    )
unfolding remove_vm_impl remove_stopped remove_disk remove_file ◌>>=◌
remove_vm_impl-disk_first h uri vm state path e is_persistent stop info s ne d x f =
    ground (arith, eq_iff state "running")
