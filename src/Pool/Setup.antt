-- ===== src/Pool/Setup.antt =====
-- Which calls the search for the pool's path may make (crates/kit/src/libvirt/run.rs).
use bcvk.Common.{
  String, List, [], ◌∷◌, Option, none, some, Bool, true, false, ◌||◌, ◌==◌, not, ◌≡◌, refl,
  starts_with, contains, is_empty_text, trim,
}
use bcvk.Host.{Host, Action}
use bcvk.Host.Exec.{
  virsh, Keeps, Keeps-bind, Keeps-if, Keeps-pure, Keeps-fail, Keeps-lift, Keeps-reads,
  Keeps-with_context, Keeps-attempt, Logged, Logged-virsh, Logged-remove_file,
  Logged-create_dir_all, Logged-create_temp, Logged-write_file,
}
use bcvk.Xml.{XmlNode, text_content}
use bcvk.DomainList.{run_virsh_xml}
use bcvk.Pool.{
  default_path, start_pool, define_failed, define_pool, create_pool, ensure_default_pool, path_of,
  get_libvirt_storage_pool_path, list_storage_pool_volumes,
}

-- commands on the pool itself: never on a domain or a volume
unfoldable pub is_pool_command : String → Bool
is_pool_command command = starts_with "pool-" command || command == "uri"

unfoldable pub leaves_disks : Action → Bool
unfolding is_pool_command
leaves_disks (Action.virsh []) = false
leaves_disks (Action.virsh (command ∷ _)) = is_pool_command command
leaves_disks (Action.remove_file _) = true
leaves_disks (Action.setxattr _ _) = false
leaves_disks (Action.create_dir_all _) = true
leaves_disks (Action.create_temp _) = true
leaves_disks (Action.write_file _) = true
leaves_disks (Action.persist _ _) = false
leaves_disks (Action.command _) = false

-- no libvirt call but on the pool itself, and no file renamed
pub record LeavesDisks (a : Action) : Type 0 where
  pub holds : leaves_disks a ≡ true

module _ {W : Type 0} (h : Host W) (uri : Option String) where
  pool_virsh :
      (u : Option String) (args : List String)
      → leaves_disks (Action.virsh args) ≡ true
      → Keeps (Logged LeavesDisks) (virsh h u args)
  pool_virsh u args e = Logged-virsh h u args (record { holds = e })

  default_path-pool : (u : Option String) → Keeps (Logged LeavesDisks) (default_path h uri u)
  unfolding default_path leaves_disks starts_with
  default_path-pool (some u) = Keeps-pure _
  default_path-pool none =
      Keeps-bind _ _ (Keeps-with_context _ _ (pool_virsh none ("uri" ∷ []) refl))
        (λ o. Keeps-pure _)

  start_pool-pool : Keeps (Logged LeavesDisks) (start_pool h uri)
  unfolding start_pool leaves_disks starts_with
  start_pool-pool =
      Keeps-bind _ _ (Keeps-attempt _ (pool_virsh uri ("pool-build" ∷ "default" ∷ []) refl)) (λ _.
        Keeps-bind _ _
          (Keeps-with_context _ _ (pool_virsh uri ("pool-start" ∷ "default" ∷ []) refl))
          (λ o. Keeps-if (not o.success) _ _ (Keeps-fail _) (
            Keeps-bind _ _
              (Keeps-attempt _ (pool_virsh uri ("pool-autostart" ∷ "default" ∷ []) refl))
              (λ _. Keeps-pure tt))))

  define_failed-pool : (path e : String) → Keeps (Logged LeavesDisks) (define_failed h uri path e)
  unfolding define_failed leaves_disks starts_with
  define_failed-pool path e =
      Keeps-bind _ _ (Keeps-attempt _ (Logged-remove_file h path (record { holds = refl })))
        (λ _. Keeps-if (contains "already exists" e) _ _ (Keeps-pure tt) (Keeps-fail _))

  define_pool-pool : (path x : String) → Keeps (Logged LeavesDisks) (define_pool h uri path x)
  unfolding define_pool leaves_disks starts_with
  define_pool-pool path x =
      Keeps-bind _ _ (Keeps-with_context _ _ (Logged-write_file h x _ (record { holds = refl })))
        (λ _.
          Keeps-bind _ _ (Keeps-with_context _ _ (pool_virsh uri ("pool-define" ∷ x ∷ []) refl))
            (λ o. Keeps-if (not o.success) _ _ (define_failed-pool x o.stderr) start_pool-pool))

  create_pool-pool : Keeps (Logged LeavesDisks) (create_pool h uri)
  unfolding create_pool leaves_disks starts_with
  create_pool-pool = Keeps-bind _ _ (default_path-pool uri) (λ p.
      Keeps-bind _ _ (Keeps-with_context _ _ (Logged-create_dir_all h p (record { holds = refl })))
        (λ _.
          Keeps-bind _ _ (Logged-create_temp h "bcvk-libvirt" "" "" (record { holds = refl })) (λ x.
            Keeps-bind _ _ (Keeps-attempt _ (define_pool-pool p x)) (λ r.
              Keeps-bind _ _ (Keeps-attempt _ (Logged-remove_file h x (record { holds = refl })))
                (λ _. Keeps-lift r)))))

  ensure_default_pool-pool : Keeps (Logged LeavesDisks) (ensure_default_pool h uri)
  unfolding ensure_default_pool leaves_disks starts_with
  ensure_default_pool-pool =
      Keeps-bind _ _ (Keeps-with_context _ _ (pool_virsh uri ("pool-info" ∷ "default" ∷ []) refl))
        (λ o.
          Keeps-if o.success _ _
            (Keeps-bind _ _ (Keeps-attempt _ (pool_virsh uri ("pool-start" ∷ "default" ∷ []) refl))
              (λ _. Keeps-pure tt))
            create_pool-pool)

  path_of-pool : (n : Option XmlNode) → Keeps (Logged LeavesDisks) (path_of h uri n)
  unfolding path_of
  path_of-pool none = Keeps-fail _
  path_of-pool (some n) =
      Keeps-if (not (is_empty_text (trim (text_content n)))) _ _ (Keeps-pure _) (Keeps-fail _)

  run_virsh_xml-pool :
      Keeps (Logged LeavesDisks) (run_virsh_xml h uri ("pool-dumpxml" ∷ "default" ∷ []))
  unfolding run_virsh_xml leaves_disks starts_with
  run_virsh_xml-pool =
      Keeps-bind _ _
        (Keeps-with_context _ _ (pool_virsh uri ("pool-dumpxml" ∷ "default" ∷ []) refl))
        (λ o. Keeps-if o.success _ _ (Keeps-with_context _ _ (Keeps-lift _)) (Keeps-fail _))

  pub get_libvirt_storage_pool_path-pool :
      Keeps (Logged LeavesDisks) (get_libvirt_storage_pool_path h uri)
  unfolding get_libvirt_storage_pool_path
  get_libvirt_storage_pool_path-pool =
      Keeps-bind _ _ ensure_default_pool-pool
        (λ _. Keeps-bind _ _ (Keeps-with_context _ _ run_virsh_xml-pool) (λ d. path_of-pool _))

  pub list_storage_pool_volumes-pool : Keeps (Logged LeavesDisks) (list_storage_pool_volumes h uri)
  unfolding list_storage_pool_volumes
  list_storage_pool_volumes-pool =
      Keeps-bind _ _ get_libvirt_storage_pool_path-pool (λ p. Keeps-reads _)
