-- ===== src/Rm.antt =====
-- crates/kit/src/libvirt/rm.rs: `bcvk libvirt rm`, and the removal that `libvirt run --replace` and
-- other commands use. What is printed is left out.
pub mod Confirm
pub mod Outcome
use bcvk.Common.{
  String, List, [], ◌∷◌, Option, none, some, Bool, true, false, not, ◌==◌, ◌||◌, ◌&&◌, format,
  if◌then◌else◌, trim, lines, strip_prefix, is_empty_text,
}
use bcvk.Result.{Result, ok, err, context}
use bcvk.Host.{Host, Output}
use bcvk.Host.Exec.{
  Exec, pure, fail, lift, reads, with_context, map_err, attempt, virsh, remove_file, ◌>>=◌, ◌>>◌,
}
use bcvk.Xml.{XmlNode, text_content, find, parse_xml_dom}
use bcvk.DomainList.{PodmanBootcDomain, get_domain_state, get_domain_info}

-- "Persistent:     yes" or "Persistent:     no", and persistent if neither is there
unfoldable pub persistent_of : List String → Bool
persistent_of [] = true
persistent_of (line ∷ rest) = elim (strip_prefix "Persistent:" line) [
  | some value ↦ trim value == "yes"
  | none ↦ persistent_of rest
]

-- `LibvirtRmOpts`
pub record LibvirtRmOpts : Type 0 where
  pub name : String
  pub force : Bool
  pub stop : Bool

module _ {W : Type 0} (h : Host W) (connect_uri : Option String) where
  unfoldable pub is_domain_persistent : String → Exec W Bool
  unfolding persistent_of
  is_domain_persistent vm_name = do
    output ←
        map_err (λ e. format ("Failed to get domain info: " ∷ e ∷ []))
          (virsh h connect_uri ("dominfo" ∷ vm_name ∷ []))
    if output.success
        then pure (persistent_of (lines output.stdout))
        else fail
            (format ("Failed to get domain info for '" ∷ vm_name ∷ "': " ∷ output.stderr ∷ []))

  unfoldable pub remove_disk : Option String → Exec W (Unit {0})
  remove_disk none = pure tt
  remove_disk (some disk_path) = do
    there ← reads (h.exists disk_path)
    if there
        then with_context (remove_file h disk_path)
            (format ("Failed to remove disk file: " ∷ disk_path ∷ []))
        else pure tt

  -- The path in the domain's metadata; whatever goes wrong is passed over.
  ignition_path : Result Output → Option String
  ignition_path (err _) = none
  ignition_path (ok output) = elim (parse_xml_dom h.unescape (h.read_events output.stdout)) [
    | err _ ↦ none
    | ok dom ↦ elim (find "bootc:ignition-persistent-path" dom) [
      | none ↦ none
      | some n ↦ some (trim (text_content n))
    ]
  ]

  remove_ignition_at : Option String → Exec W (Unit {0})
  remove_ignition_at none = pure tt
  remove_ignition_at (some path) = do
    there ← reads (h.exists path)
    if not (is_empty_text path) && there
        then (do attempt (remove_file h path); pure tt)
        else pure tt

  unfoldable pub remove_ignition : String → Exec W (Unit {0})
  unfolding ignition_path remove_ignition_at
  remove_ignition vm_name = do
    xml_output ← attempt (virsh h connect_uri ("dumpxml" ∷ vm_name ∷ []))
    remove_ignition_at (ignition_path xml_output)

  unfoldable pub undefine : String → Exec W (Unit {0})
  undefine vm_name = do
    output ←
        with_context
          (virsh h connect_uri ("undefine" ∷ vm_name ∷ "--nvram" ∷ "--remove-all-storage" ∷ []))
          "Failed to undefine libvirt domain"
    if output.success
        then pure tt
        else fail (format ("Failed to remove libvirt domain: " ∷ output.stderr ∷ []))

  -- the steps after the domain has been stopped
  unfoldable pub remove_stopped : String → PodmanBootcDomain → Exec W (Unit {0})
  remove_stopped vm_name domain_info = do
    remove_disk domain_info.disk_path
    remove_ignition vm_name
    undefine vm_name

  unfoldable pub destroy : String → Exec W (Unit {0})
  destroy vm_name = do
    output ←
        with_context (virsh h connect_uri ("destroy" ∷ vm_name ∷ []))
          "Failed to stop VM before removal"
    if output.success
        then pure tt
        else fail
            (format ("Failed to stop VM '" ∷ vm_name ∷ "' before removal: " ∷ output.stderr ∷ []))

  -- A transient domain is gone once it is destroyed.
  unfoldable pub remove_vm_impl :
      String → String → Bool → PodmanBootcDomain → Bool → Exec W (Unit {0})
  remove_vm_impl vm_name state is_persistent domain_info stop_if_running =
      if state == "running"
      then (if stop_if_running
          then (do
            destroy vm_name
            if is_persistent then remove_stopped vm_name domain_info else pure tt)
          else fail
              (format ("VM '" ∷ vm_name ∷ "' is running. Cannot remove without stopping." ∷ [])))
      else remove_stopped vm_name domain_info

  forced_in_state : String → Bool → Result String → Exec W (Unit {0})
  forced_in_state vm_name stop_if_running (err _) = pure tt
  forced_in_state vm_name stop_if_running (ok state) = do
    is_persistent ← is_domain_persistent vm_name
    domain_info ←
        with_context (get_domain_info h connect_uri vm_name)
          (format ("Failed to get info for VM '" ∷ vm_name ∷ "'" ∷ []))
    remove_vm_impl vm_name state is_persistent domain_info stop_if_running

  -- A domain that libvirt does not know is no failure: it is already gone.
  unfoldable pub remove_vm_forced : String → Bool → Exec W (Unit {0})
  unfolding forced_in_state
  remove_vm_forced vm_name stop_if_running = do
    state ← attempt (get_domain_state h connect_uri vm_name)
    forced_in_state vm_name stop_if_running state

  -- The command; without `--force` it stops at the prompt.
  unfoldable pub run : LibvirtRmOpts → Exec W (Unit {0})
  run opts = do
    state ←
        with_context (get_domain_state h connect_uri opts.name)
          (format ("VM '" ∷ opts.name ∷ "' not found" ∷ []))
    is_persistent ← is_domain_persistent opts.name
    domain_info ←
        with_context (get_domain_info h connect_uri opts.name)
          (format ("Failed to get info for VM '" ∷ opts.name ∷ "'" ∷ []))
    if state == "running" && not (opts.stop || opts.force)
        then fail (
            format (
              "VM '" ∷ opts.name
              ∷ "' is running. Use --stop or --force to remove a running VM, or stop it first."
              ∷ []))
        else if not opts.force
        then pure tt
        else remove_vm_impl opts.name state is_persistent domain_info (opts.stop || opts.force)
