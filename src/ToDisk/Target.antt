-- ===== src/ToDisk/Target.antt =====
-- The target disk of crates/kit/src/to_disk.rs in the machine of crates/kit/src/run_ephemeral.rs.
use Prim.Native.String
use Prim.Native.Char.{code}
use mathlib.Core.Option
use mathlib.Core.List.{append_assoc}
use text.Mathlib.TextLemmas.{nil-append, cons-append}
use bcvk.Common.{
  ℕ, String, Bool, true, false, Option, none, some, List, [], ◌∷◌, ◌++◌, ◌≡◌, refl, sym, ap, subst,
  format, split_once, starts_with, eqb, join, unwrap_or, if◌then◌else◌, map,
}
use bcvk.Result.{ok}
use bcvk.Host.{Machine}
use bcvk.Host.Exec.{pure, lift}
use bcvk.Host.Returns.{Returns, Returns-bind, Returns-then, Returns-pure, Returns-lift}
use bcvk.Ephemeral.DiskFiles.{
  Format, raw, qcow2, DiskHost, parse_disk_spec, asks, absolute, process_file, process_each,
  process_disk_files, disk_size_of,
}
use bcvk.Ephemeral.Options.{RunEphemeralOpts}
use bcvk.Ephemeral.Podman.{
  mount_spec, volumes, container_args, sandbox_args, disk_args, disk_env, units_args, dns_args,
}
use bcvk.Ephemeral.Podman.Command.{PodmanHost, prepare_run_command_with_temp}
use bcvk.ToDisk.{ToDiskOpts, ToDiskHost, as_str}
use bcvk.ToDisk.Command.{ephemeral_opts}

uncut :
    (b : Bool) (o : Option (String × String)) (first : String × String)
    (f : String × String → String × String)
    → (if b then some first else Option.map f o) ≡ none
    → (b ≡ false) × (o ≡ none)
uncut true o first f h = cc
uncut false none first f h = (refl, refl)
uncut false (some r) first f h = cc

-- a text without a colon is what stands before the first one
split_once-append :
    (s q : String)
    → split_once ":" s ≡ none
    → split_once ":" (String.◌++◌ s (String.◌++◌ ":" q)) ≡ some (s, q)
unfolding split_once
split_once-append String.[] q h = rw (nil-append, cons-append, nil-append) refl
split_once-append (String.◌∷◌ c s) q h =
    let (other, none_later) = uncut (eqb (code c) (code ":")) (split_once ":" s) _ _ h in
    let ih = split_once-append s q none_later in rw cons-append (rw other (rw ih refl))

parse_disk_spec-target :
    (target : String) (f : Format)
    → split_once ":" target ≡ none
    → parse_disk_spec (format (target ∷ ":output:" ∷ as_str f ∷ [])) ≡ ok (target, "output", f)
unfolding parse_disk_spec split_once
parse_disk_spec-target target raw plain =
    let cut : split_once ":" (format (target ∷ ":output:" ∷ "raw" ∷ []))
        ≡ some (target, "output:raw") =
      split_once-append target "output:raw" plain in
    rw (parse_disk_spec, cut) refl
parse_disk_spec-target target qcow2 plain =
    let cut : split_once ":" (format (target ∷ ":output:" ∷ "qcow2" ∷ []))
        ≡ some (target, "output:qcow2") =
      split_once-append target "output:qcow2" plain in
    rw (parse_disk_spec, cut) refl

-- The arguments mount the target disk by this name, so that it can be written, and after that the
-- machine's environment lists just the one disk file, under the same name and with its format.
pub record Attached (target : String) (f : Format) (args : List String) : Type 0 where
  pub before : List String
  pub between : List String
  pub after : List String
  pub passed :
      args
      ≡ before
        ++ ("-v"
            ∷ format (target ∷ ":" ∷ "/run/disk-files/" ∷ "output" ∷ ":rw" ∷ [])
            ∷ (between
                ++ ("-e"
                    ∷ format ("BOOTC_DISK_FILES=/run/disk-files/output:output:" ∷ as_str f ∷ [])
                    ∷ after)))

-- the environment of the machine with this disk
target_env :
    (target : String) (f : Format)
    → disk_env ((target, "output", f) ∷ [])
      ≡ "-e" ∷ format ("BOOTC_DISK_FILES=/run/disk-files/output:output:" ∷ as_str f ∷ []) ∷ []
unfolding disk_env join
target_env target raw = refl
target_env target qcow2 = refl

disk_args-Attached :
    (target : String) (f : Format) (xs ys zs us is ds es js cs ts : List String)
    (disks : List (String × String × Format))
    → disks ≡ (target, "output", f) ∷ []
    → Attached target f (
        xs
        ++ (ys
            ++ (zs
                ++ (disk_args disks
                    ++ (us ++ (is ++ (ds ++ (es ++ (js ++ (cs ++ (disk_env disks ++ ts)))))))))))
unfolding disk_args
disk_args-Attached target f xs ys zs us is ds es js cs ts disks d =
    rw (d, target_env)
      (record {
        before = xs ++ (ys ++ zs);
        between = us ++ (is ++ (ds ++ (es ++ (js ++ cs))));
        after = ts;
        passed = simp append_assoc;
      })

module _ {W : Type 0} (target : String) (f : Format) (rooted : starts_with "/" target ≡ true) where
  absolute-target : (h : DiskHost W) → Returns (λ q. q ≡ target) (absolute h target)
  unfolding absolute
  absolute-target h = kept (starts_with "/" target) rooted
    where
      kept :
          (b : Bool)
          → b ≡ true
          → Returns {W = W}
              (λ q. q ≡ target)
              (if b then pure target else asks h (h.canonicalize target))
      kept true e = Returns-pure target refl
      kept false e = cc

  process_file-target :
      (h : DiskHost W) (size : ℕ)
      → Returns (λ d. d ≡ (target, "output", f)) (process_file h size (target, "output", f))
  unfolding process_file
  process_file-target h size = Returns-bind _ _ (λ there. Returns-bind _ _ (λ _.
      Returns-then _ _ (absolute-target h)
        (λ path e. Returns-pure _ (ap (λ q. (q, "output", f)) e))))

  process_disk_files-target :
      (h : DiskHost W) (image : String)
      → split_once ":" target ≡ none
      → Returns
          (λ ds. ds ≡ (target, "output", f) ∷ [])
          (process_disk_files h (format (target ∷ ":output:" ∷ as_str f ∷ []) ∷ []) image)
  unfolding process_disk_files process_each
  process_disk_files-target h image plain = Returns-bind _ _ (λ size.
      Returns-then (lift (parse_disk_spec _)) _ (Returns-lift _ (λ a e. e)) (λ parsed e.
        let known = parse_disk_spec-target target f plain in
        let same : parsed ≡ (target, "output", f) = cc in
        Returns-then _ _
          (subst
            (λ x. Returns (λ d. d ≡ (target, "output", f)) (process_file h (disk_size_of h size) x))
            (sym same) (process_file-target h (disk_size_of h size)))
          (λ disk d.
            Returns-then {Q = λ l. l ≡ []} _ _ (Returns-pure [] refl)
              (λ more m. Returns-pure (disk ∷ more) (rw (d, m) refl)))))

  prepared-Attached :
      (p : PodmanHost W) (opts : RunEphemeralOpts)
      → split_once ":" target ≡ none
      → opts.mount_disk_files ≡ format (target ∷ ":output:" ∷ as_str f ∷ []) ∷ []
      → Returns (Attached target f) (prepare_run_command_with_temp p opts)
  unfolding prepare_run_command_with_temp disk_args
  prepared-Attached p opts plain files = Returns-bind _ _ (λ _. Returns-bind _ _ (λ entrypoint.
      Returns-bind _ _ (λ exe.
        Returns-then _ _
          (subst
            (λ l.
              Returns (λ ds. ds ≡ (target, "output", f) ∷ [])
                (process_disk_files p.disks l opts.image))
            (sym files) (process_disk_files-target p.disks opts.image plain))
          (λ disks d. Returns-bind _ _ (λ mounts. Returns-bind _ _ (λ vsock.
            Returns-bind _ _ (λ ignition. Returns-bind _ _ (λ dns. Returns-bind _ _ (λ journal.
              Returns-bind _ _ (λ console. Returns-pure _ (
                disk_args-Attached target f (container_args opts.podman)
                  (sandbox_args vsock entrypoint exe opts.image) (volumes (map mount_spec mounts))
                  (units_args opts.systemd_units_dir) ignition (dns_args dns)
                  ("-e"
                    ∷ format
                        ("BCK_CONFIG=" ∷ p.to_json (record opts { host_dns_servers = dns }) ∷ [])
                    ∷ [])
                  journal console
                  ("--"
                    ∷ opts.image
                    ∷ unwrap_or opts.debug_entrypoint "/var/lib/bcvk/entrypoint"
                    ∷ [])
                  disks d)))))))))))

-- The machine that the installation starts has the target disk under the name `output`, by which the
-- script names it: when podman's command has been prepared for the options of the installation, its
-- arguments mount the disk there, so that it can be written, and its environment lists this one disk
-- file, under that name and with the format that was asked for. The path is absolute and has no colon.
pub ephemeral_opts-Attached :
    {W : Type 0} (t : ToDiskHost W) (p : PodmanHost W) (opts : ToDiskOpts) (size : ℕ)
    (units : String) (args : List String) (s u : Machine W)
    → starts_with "/" opts.target_disk ≡ true
    → split_once ":" opts.target_disk ≡ none
    → prepare_run_command_with_temp p (ephemeral_opts t opts size units) s ≡ (ok args, u)
    → Attached opts.target_disk opts.additional.format args
unfolding ephemeral_opts
ephemeral_opts-Attached t p opts size units args s u rooted plain h =
    (prepared-Attached opts.target_disk opts.additional.format rooted p
        (ephemeral_opts t opts size units) plain refl).returned
      s args u h
