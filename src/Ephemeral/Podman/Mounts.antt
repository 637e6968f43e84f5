-- ===== src/Ephemeral/Podman/Mounts.antt =====
-- The directories of the host that an ephemeral machine of crates/kit/src/run_ephemeral.rs is given.
use mathlib.Core.List.{append_assoc}
use bcvk.Common.{
  String, Bool, true, false, List, [], ◌∷◌, ◌++◌, map, ◌≡◌, Option, none, some, split_once,
  unwrap_or, refl, sym, ◌∙◌, ap, format,
}
use bcvk.Result.{ok}
use bcvk.Host.{Machine}
use bcvk.Host.Exec.{with_context, >>=-eq-ok, pure-eq-ok}
use bcvk.Storage.{detect_container_storage_path}
use bcvk.Common.Text.Paths.{file_name}
use bcvk.Host.Returns.{with_context-eq-ok, Returns, Returns-bind, Returns-then, Returns-pure}
use bcvk.Ephemeral.Options.{RunEphemeralOpts}
use bcvk.Ephemeral.Podman.{
  HostMount, parse_mount, mount_spec, volumes, container_args, sandbox_args,
}
use bcvk.Ephemeral.Podman.Command.{
  PodmanHost, with_storage, host_mounts, prepare_run_command_with_temp,
}

-- What `HOST_PATH[:NAME]` stands for: what is before the first colon under the name after it, or
-- the whole of it under its last part.
pub data Names (is_readonly : Bool) (spec : String) : HostMount → Type 0 where
  named :
      (path name : String)
      → split_once ":" spec ≡ some (path, name)
      → Names is_readonly spec (path, name, is_readonly)
  unnamed :
      split_once ":" spec ≡ none
      → Names is_readonly spec (spec, unwrap_or (file_name spec) "mount", is_readonly)

-- The mounts are those of the specifications, in their order.
pub data Each (is_readonly : Bool) : List String → List HostMount → Type 0 where
  none_left : Each is_readonly [] []
  next :
      (spec : String) (mount : HostMount) (specs : List String) (mounts : List HostMount)
      → Names is_readonly spec mount
      → Each is_readonly specs mounts
      → Each is_readonly (spec ∷ specs) (mount ∷ mounts)

parse_mount-Names : (b : Bool) (spec : String) → Names b spec (parse_mount b spec)
unfolding parse_mount
parse_mount-Names b spec = go (split_once ":" spec) refl
  where
    go :
        (o : Option (String × String))
        → split_once ":" spec ≡ o
        → Names b spec (elim o [
          | some parts ↦ (parts.0, parts.1, b)
          | none ↦ (spec, unwrap_or (file_name spec) "mount", b)
        ])
    go (some (path, name)) e = Names.named path name e
    go none e = Names.unnamed e

map-Each : (b : Bool) (specs : List String) → Each b specs (map (parse_mount b) specs)
map-Each b [] = Each.none_left
map-Each b (s ∷ ss) = Each.next s (parse_mount b s) ss _ (parse_mount-Names b s) (map-Each b ss)

-- a directory below `/run/host-mounts/`, `:ro` after it where it is read-only
abbrev pub written : HostMount → String
written (path, name, true) = format (path ∷ ":/run/host-mounts/" ∷ name ∷ ":ro" ∷ [])
written (path, name, false) = format (path ∷ ":/run/host-mounts/" ∷ name ∷ [])

mount_spec-written : (mounts : List HostMount) → map mount_spec mounts ≡ map written mounts
unfolding mount_spec
mount_spec-written [] = refl
mount_spec-written ((path, name, true) ∷ rest) =
    ap (λ l. written (path, name, true) ∷ l) (mount_spec-written rest)
mount_spec-written ((path, name, false) ∷ rest) =
    ap (λ l. written (path, name, false) ∷ l) (mount_spec-written rest)

volumes-written :
    (xs ys rest : List String) (mounts all : List HostMount)
    → mounts ≡ all
    → xs ++ (ys ++ (volumes (map mount_spec mounts) ++ rest))
      ≡ (xs ++ ys) ++ (volumes (map written all) ++ rest)
volumes-written xs ys rest mounts all e =
    sym (append_assoc xs ys _)
    ∙ ap (λ l. (xs ++ ys) ++ (volumes l ++ rest)) (mount_spec-written mounts ∙ ap (map written) e)

module _ {W : Type 0} (p : PodmanHost W) where
  -- Where the container storage is asked for, its path is the one that was found.
  pub data Stored : Bool → List HostMount → Type 0 where
    not_asked : Stored false []
    found :
        (path : String) (u v : Machine W)
        → detect_container_storage_path p.storage u ≡ (ok path, v)
        → Stored true ((path, "hoststorage", true) ∷ [])

  -- The arguments have the volumes of the mounts that are asked for, one after another: the
  -- container storage, the writable ones, and then the others, which are read-only.
  pub record Mounted (opts : RunEphemeralOpts) (args : List String) : Type 0 where
    pub storage : List HostMount
    pub writable : List HostMount
    pub read_only : List HostMount
    pub stored : Stored opts.bind_storage_ro storage
    pub are_writable : Each false opts.bind_mounts writable
    pub are_read_only : Each true opts.ro_bind_mounts read_only
    pub before : List String
    pub after : List String
    pub passed :
        args ≡ before ++ (volumes (map written (storage ++ (writable ++ read_only))) ++ after)

  -- the mounts are the others, after the container storage
  abbrev Placed : Bool → List HostMount → List HostMount → Type 0
  Placed asked others mounts =
      (storage : List HostMount) × Stored asked storage × (mounts ≡ storage ++ others)

  with_storage-Placed :
      (b : Bool) (others : List HostMount) → Returns (Placed b others) (with_storage p b others)
  unfolding with_storage
  with_storage-Placed false others = Returns-pure others ([], Stored.not_asked, refl)
  with_storage-Placed true others = record {
    returned = λ s mounts t e.
        let (path, u, detected, e1) =
          >>=-eq-ok (with_context (detect_container_storage_path p.storage) _) _ s e in
        let (_, v, _, e2) = >>=-eq-ok _ _ u e1 in
        (
          (path, "hoststorage", true) ∷ [],
          Stored.found path s u (with_context-eq-ok _ _ s u path detected),
          sym (pure-eq-ok _ mounts v t e2).0,
        );
  }

  prepared-Mounted :
      (opts : RunEphemeralOpts) → Returns (Mounted opts) (prepare_run_command_with_temp p opts)
  unfolding prepare_run_command_with_temp host_mounts
  prepared-Mounted opts = Returns-bind _ _ (λ _. Returns-bind _ _ (λ entrypoint.
      Returns-bind _ _ (λ exe. Returns-bind _ _ (λ disks.
        Returns-then _ _ (with_storage-Placed opts.bind_storage_ro _) (λ mounts placed.
          Returns-bind _ _ (λ vsock. Returns-bind _ _ (λ ignition. Returns-bind _ _ (λ dns.
            Returns-bind _ _ (λ journal. Returns-bind _ _ (λ console. Returns-pure _ (record {
              storage = placed.0;
              writable = _;
              read_only = _;
              stored = placed.1;
              are_writable = map-Each false opts.bind_mounts;
              are_read_only = map-Each true opts.ro_bind_mounts;
              before = container_args opts.podman ++ sandbox_args vsock entrypoint exe opts.image;
              after = _;
              passed =
                  volumes-written (container_args opts.podman)
                    (sandbox_args vsock entrypoint exe opts.image) _ mounts
                    (placed.0
                      ++ (map (parse_mount false) opts.bind_mounts
                          ++ map (parse_mount true) opts.ro_bind_mounts))
                    placed.2;
            })))))))))))

-- When the command for podman has been prepared, its arguments mount, one after another, the container
-- storage that was found as a read-only directory where it is asked for, the directories that the options name as
-- writable, and those that they name as read-only, each by its
-- name below `/run/host-mounts/`.
pub prepare_run_command_with_temp-Mounted :
    {W : Type 0} (p : PodmanHost W) (opts : RunEphemeralOpts) (args : List String) (s t : Machine W)
    → prepare_run_command_with_temp p opts s ≡ (ok args, t)
    → Mounted p opts args
prepare_run_command_with_temp-Mounted p opts args s t h =
    (prepared-Mounted p opts).returned s args t h
