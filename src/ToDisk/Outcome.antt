-- ===== src/ToDisk/Outcome.antt =====
-- What a run of crates/kit/src/to_disk.rs has done when it returns.
use bcvk.Common.{
  ◌∙◌, ℕ, String, Bool, true, false, not, Option, none, some, List, [], ◌∷◌, ◌≡◌, ◌≢◌, refl, ap,
  if◌then◌else◌,
}
use bcvk.Result.{Result, ok, err}
use bcvk.Host.{Machine, Action}
use bcvk.Host.Exec.{pure, fail, lift, attempt, remove_file, ◌>>=◌, >>=-eq-ok, pure-eq-ok}
use bcvk.Host.Returns.{Returns, Returns-bind, Returns-pure, Returns-if, passed}
use bcvk.Cache.{CacheInputs, Validation, valid, invalid}
use bcvk.ToDisk.{ToDiskOpts, ToDiskHost, RunOutcome}
use bcvk.ToDisk.Script.{generate_bootc_install_command}
use bcvk.ToDisk.Command.{
  normalized, write_units, session, settled, install_in, ephemeral_opts, create, reused,
  check_existing, regenerate, write_disk_metadata, command, run,
}

not_regenerated : RunOutcome.dry_run_would_regenerate ≢ RunOutcome.created
not_regenerated q = cc

abbrev pub removal : String → List String
removal id = "podman" ∷ "rm" ∷ "-f" ∷ "--" ∷ id ∷ []

module _ {W : Type 0} (t : ToDiskHost W) (hash_of : CacheInputs → String) where
  -- A machine was started for these options, the script for them ran in it without a fault, and
  -- podman was asked to remove the machine's container, whatever it answered.
  pub record Installed (opts : ToDiskOpts) (u : Machine W) : Type 0 where
    pub disk_size : ℕ
    pub units_dir : String
    pub script : List String
    pub generated : generate_bootc_install_command t.try_quote opts disk_size ≡ ok script
    pub before : Machine W
    pub started : Machine W
    pub container_id : String
    pub runs :
        t.run_detached (ephemeral_opts t opts disk_size units_dir) before
        ≡ (ok container_id, started)
    pub ready : Machine W
    pub waits : t.wait_for_ssh_ready container_id started ≡ (ok tt, ready)
    pub finished : Machine W
    pub succeeds : t.connect container_id script t.is_terminal ready ≡ (ok true, finished)
    pub removed : (command t (removal container_id) finished).1 ≡ u

  session-ok :
      (id : String) (script : List String) (s v : Machine W)
      → session t id script s ≡ (ok tt, v)
      → (x : Machine W) × (t.wait_for_ssh_ready id s ≡ (ok tt, x))
        × (t.connect id script t.is_terminal x ≡ (ok true, v))
  unfolding session
  session-ok id script s v h =
      let (_, x, w, h1) = >>=-eq-ok (t.wait_for_ssh_ready id) _ s h in
      let (b, y, c, h2) = >>=-eq-ok (t.connect id script t.is_terminal) _ x h1 in
      let (good, same) = passed b _ y v h2 in (x, w, c ∙ (λ i. (ok (good i), same i)))

  settled-ok :
      (opts : ToDiskOpts) (r : Result (Unit {0})) (a : RunOutcome) (s v : Machine W)
      → settled t hash_of opts r s ≡ (ok a, v)
      → (r ≡ ok tt) × ((write_disk_metadata t hash_of opts s).1 ≡ v)
  unfolding settled attempt pure fail ◌>>=◌
  settled-ok opts (ok tt) a s v h = (refl, ap (λ p. p.1) h)
  settled-ok opts (err e) a s v h = cc

  install_in-ok :
      (opts : ToDiskOpts) (script : List String) (id : String) (a : RunOutcome) (s v : Machine W)
      → install_in t hash_of opts script id s ≡ (ok a, v)
      → (session t id script s ≡ (ok tt, (session t id script s).1))
        × ((write_disk_metadata t hash_of opts
              (command t (removal id) (session t id script s).1).1).1
            ≡ v)
  unfolding install_in attempt ◌>>=◌
  install_in-ok opts script id a s v h =
      let (r, e) = settled-ok opts (session t id script s).0 a _ v h in
      ((λ i. (r i, (session t id script s).1)), e)

  -- the machine after a creation: the metadata has been written, or tried to be, after the rest
  abbrev Ends : ToDiskOpts → Machine W → Type 0
  Ends opts v = (u : Machine W) × Installed opts u × ((write_disk_metadata t hash_of opts u).1 ≡ v)

  launched-Ends :
      (opts : ToDiskOpts) (size : ℕ) (units : String) (script : List String) (a : RunOutcome)
      (s v : Machine W)
      → generate_bootc_install_command t.try_quote opts size ≡ ok script
      → (t.run_detached (ephemeral_opts t opts size units) >>= install_in t hash_of opts script) s
        ≡ (ok a, v)
      → Ends opts v
  launched-Ends opts size units script a s v g h =
      let (id, c, r, h1) = >>=-eq-ok (t.run_detached (ephemeral_opts t opts size units)) _ s h in
      let (done, w) = install_in-ok opts script id a c v h1 in
      let (x, waited, connected) = session-ok id script c _ done in
      (
        (command t (removal id) (session t id script c).1).1,
        record {
          disk_size = size;
          units_dir = units;
          script = script;
          generated = g;
          before = s;
          started = c;
          container_id = id;
          runs = r;
          ready = x;
          waits = waited;
          finished = (session t id script c).1;
          succeeds = connected;
          removed = refl;
        },
        w,
      )

  create-Ends :
      (opts : ToDiskOpts) (a : RunOutcome) (s v : Machine W)
      → create t hash_of opts s ≡ (ok a, v)
      → Ends opts v
  unfolding create lift
  create-Ends opts a s v h =
      let (_, _, _, h1) = >>=-eq-ok _ _ s h in
      let (size, _, _, h2) = >>=-eq-ok _ _ _ h1 in
      let (_, b, _, h3) = >>=-eq-ok _ _ _ h2 in
      let (script, c, g, h4) =
        >>=-eq-ok (lift (generate_bootc_install_command t.try_quote opts size)) _ b h3 in
      let (units, d, _, h5) = >>=-eq-ok (write_units t) _ c h4 in
      launched-Ends opts size units script a d v (ap (λ p. p.0) g) h5

  -- The search for a cached disk does not answer that one was created.
  abbrev NotCreated : Option RunOutcome → Type 0
  NotCreated o = o ≢ some RunOutcome.created

  reuse-NotCreated :
      (b : Bool)
      → NotCreated (some (if b then RunOutcome.dry_run_would_reuse else RunOutcome.cached))
  reuse-NotCreated true q = cc
  reuse-NotCreated false q = cc

  reused-NotCreated :
      (opts : ToDiskOpts) (c : Validation) → Returns NotCreated (reused t hash_of opts c)
  unfolding reused
  reused-NotCreated opts valid = Returns-pure _ (reuse-NotCreated opts.additional.dry_run)
  reused-NotCreated opts (invalid e) =
      Returns-if (not opts.additional.dry_run) _ _
        (Returns-bind _ _ (λ _. Returns-pure none (λ q. cc))) (Returns-pure none (λ q. cc))

  check_existing-NotCreated :
      (opts : ToDiskOpts) → Returns NotCreated (check_existing t hash_of opts)
  unfolding check_existing
  check_existing-NotCreated opts = Returns-bind _ _ (λ there.
      Returns-if there _ _
        (Returns-bind _ _ (λ i. Returns-bind _ _ (λ c. reused-NotCreated opts c)))
        (Returns-pure none (λ q. cc)))

  regenerate-Ends :
      (opts : ToDiskOpts) (o : Option RunOutcome) (s v : Machine W)
      → NotCreated o
      → regenerate t hash_of opts o s ≡ (ok RunOutcome.created, v)
      → Ends opts v
  unfolding regenerate
  regenerate-Ends opts (some a) s v n h = absurd (n (ap some (pure-eq-ok a _ s v h).0))
  regenerate-Ends opts none s v n h = wet opts.additional.dry_run h
    where
      wet :
          (b : Bool)
          → (if b then pure RunOutcome.dry_run_would_regenerate else create t hash_of opts) s
            ≡ (ok RunOutcome.created, v)
          → Ends opts v
      wet true q = absurd (not_regenerated (pure-eq-ok _ _ s v q).0)
      wet false q = create-Ends opts RunOutcome.created s v q

-- A run says that it has created a disk only where a machine was started for these options, the
-- script for them ran in it without a fault, and podman was asked to remove the machine's container,
-- in this order. What podman answers to that is not looked at. What comes after is the writing of
-- the metadata, which may fail.
pub run-Installed :
    {W : Type 0} (t : ToDiskHost W) (hash_of : CacheInputs → String) (opts : ToDiskOpts)
    (s v : Machine W)
    → run t hash_of opts s ≡ (ok RunOutcome.created, v)
    → (u : Machine W) × Installed t hash_of (normalized opts) u
      × ((write_disk_metadata t hash_of (normalized opts) u).1 ≡ v)
unfolding run
run-Installed t hash_of opts s v h =
    let (o, u, c, h1) = >>=-eq-ok (check_existing t hash_of (normalized opts)) _ s h in
    regenerate-Ends t hash_of (normalized opts) o u v
      ((check_existing-NotCreated t hash_of (normalized opts)).returned s o u c) h1

-- Where the installation in the machine fails, its error is that of the run's last part, and the
-- newest calls after it are the removal of the machine's container and then of the disk.
pub install_in-discards :
    {W : Type 0} (t : ToDiskHost W) (hash_of : CacheInputs → String) (opts : ToDiskOpts)
    (script : List String) (id e : String) (s u : Machine W)
    → session t id script s ≡ (err e, u)
    → ((install_in t hash_of opts script id s).0 ≡ err e)
      × ((install_in t hash_of opts script id s).1.log
          ≡ Action.remove_file opts.target_disk ∷ Action.command (removal id) ∷ u.log)
unfolding install_in settled command remove_file fail attempt ◌>>=◌
install_in-discards t hash_of opts script id e s u h = (rw h refl, rw h refl)
