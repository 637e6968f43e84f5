-- ===== src/Firmware/Enrolled.antt =====
-- What `setup_secure_boot` of crates/kit/src/libvirt/secureboot.rs has done when it returns.
use bcvk.Common.{String, true, not, some, List, [], ◌∷◌, ◌≡◌, ap, sym, ◌∙◌, subst, if◌then◌else◌}
use bcvk.Common.Text.Paths.{join_path}
use bcvk.Result.{Result, ok}
use bcvk.Host.{Action, Machine}
use bcvk.Host.Exec.{pure, fail, ◌>>=◌, >>=-eq-ok, pure-eq-ok, newest}
use bcvk.Host.Returns.{passed}
use bcvk.Firmware.{Files, FirmwareInfo, find_firmware_from_descriptors}
use bcvk.Firmware.Keys.{
  CommandOutput, SecureBootKeys, SecureBootConfig, enrolling, command, expect, customize_ovmf_vars,
  keys_in, load, setup_secure_boot, search_firmware,
}

module _ {W : Type 0} (run : List String → W → Result CommandOutput × W) where
  -- The newest call ran this command, and it succeeded.
  pub record Ran (args : List String) (t : Machine W) : Type 0 where
    pub is_newest : newest t ≡ some (Action.command args)
    pub from : W
    pub output : CommandOutput
    pub ran : run args from ≡ (ok output, t.world)
    pub succeeded : output.success ≡ true

  or_fail-Ran :
      (args : List String) (message : CommandOutput → String) (s t : Machine W)
      → (command run args >>= λ output.
            if not output.success then fail (message output) else pure tt)
          s
        ≡ (ok tt, t)
      → Ran args t
  unfolding command
  or_fail-Ran args message s t h =
      let (o, u, c, e) = >>=-eq-ok (command run args) _ s h in
      let (succeeded, same) = passed o.success (message o) u t e in
      let there : (command run args s).1 ≡ t = ap (λ p. p.1) c ∙ same in
      record {
        is_newest = ap newest (sym there);
        from = s.world;
        output = o;
        ran = λ i. (ap (λ p. p.0) c i, ap (λ m. m.world) there i);
        succeeded = succeeded;
      }

  customize-Ran :
      (keys : SecureBootKeys) (vars path : String) (s t : Machine W)
      → customize_ovmf_vars run keys vars path s ≡ (ok tt, t)
      → Ran (enrolling keys vars path) t
  unfolding customize_ovmf_vars
  customize-Ran keys vars path s t h =
      let (_, u, _, e) = >>=-eq-ok (expect run ("which" ∷ "virt-fw-vars" ∷ []) _) _ s h in
      or_fail-Ran (enrolling keys vars path) _ u t e

  module _ (files : W → Files) (host_arch : String) where
    -- The variables of a firmware with secure boot are enrolled with the keys of the directory.
    pub record Enrolled (key_dir path : String) (s : Machine W) (c : SecureBootConfig)
        (t : Machine W) : Type 0 where
      pub after_keys : Machine W
      pub keys : SecureBootKeys
      pub loaded : load run key_dir s ≡ (ok keys, after_keys)
      pub same_guid : keys.guid ≡ c.guid
      pub searched : W
      pub firmware : FirmwareInfo
      pub found : find_firmware_from_descriptors (files searched) host_arch true ≡ ok firmware
      pub enrolled :
          Ran
            ("virt-fw-vars"
              ∷ "--input"
              ∷ firmware.vars_path
              ∷ "--secure-boot"
              ∷ "--set-pk"
              ∷ c.guid
              ∷ join_path key_dir "PK.crt"
              ∷ "--add-kek"
              ∷ c.guid
              ∷ join_path key_dir "KEK.crt"
              ∷ "--add-db"
              ∷ c.guid
              ∷ join_path key_dir "db.crt"
              ∷ "-o"
              ∷ path
              ∷ [])
            t
      pub paths : (c.key_dir ≡ key_dir) × (c.vars_path ≡ path)
      pub same_format : c.vars_format ≡ firmware.vars_format

    load-keys :
        (key_dir : String) (s t : Machine W) (keys : SecureBootKeys)
        → load run key_dir s ≡ (ok keys, t)
        → keys ≡ keys_in run key_dir keys.guid
    unfolding load keys_in
    load-keys key_dir s t keys h =
        let (_, a, _, h1) = >>=-eq-ok (expect run ("test" ∷ "-d" ∷ key_dir ∷ []) _) _ s h in
        let (_, b, _, h2) =
          >>=-eq-ok (command run ("cat" ∷ join_path key_dir "GUID.txt" ∷ [])) _ a h1 in
        let (_, c, _, h3) = >>=-eq-ok _ _ b h2 in
        let (_, d, _, h4) = >>=-eq-ok _ _ c h3 in
        let (_, f, _, h5) = >>=-eq-ok _ _ d h4 in
        let same = (pure-eq-ok _ keys f t h5).0 in
        sym same ∙ ap (λ k. keys_in run key_dir k.guid) same

    Enrolled-of :
        (key_dir path : String) (keys : SecureBootKeys) (i : FirmwareInfo) (c : SecureBootConfig)
        (s a u t : Machine W)
        → load run key_dir s ≡ (ok keys, a)
        → keys ≡ keys_in run key_dir keys.guid
        → find_firmware_from_descriptors (files a.world) host_arch true ≡ ok i
        → Ran (enrolling keys i.vars_path path) u
        → record {
          key_dir = key_dir;
          vars_path = path;
          vars_format = i.vars_format;
          guid = keys.guid;
        }
          ≡ c
        → u ≡ t
        → Enrolled key_dir path s c t
    unfolding enrolling keys_in
    Enrolled-of key_dir path keys i c s a u t l k f e config same =
        let read : keys ≡ keys_in run key_dir c.guid =
          k ∙ ap (keys_in run key_dir) (ap (λ x. x.guid) config) in
        let there : Ran (enrolling keys i.vars_path path) t =
          subst (Ran (enrolling keys i.vars_path path)) same e in
        record {
          after_keys = a;
          keys = keys;
          loaded = l;
          same_guid = ap (λ x. x.guid) config;
          searched = a.world;
          firmware = i;
          found = f;
          enrolled = subst (λ x. Ran (enrolling x i.vars_path path) t) read there;
          paths = (sym (ap (λ x. x.key_dir) config), sym (ap (λ x. x.vars_path) config));
          same_format = sym (ap (λ x. x.vars_format) config);
        }

-- When the set-up of secure boot returns, its newest call is a run of `virt-fw-vars` that succeeded
-- and wrote, from the variables of a firmware that was found to support secure boot, the domain's
-- own, with PK.crt of the key directory as the platform key, KEK.crt added as a key exchange key, and
-- db.crt to the allowed signatures, each under the GUID that the keys were loaded with. The configuration is of that directory,
-- of the file that was written, and of that firmware's format.
pub setup_secure_boot-Enrolled :
    {W : Type 0} (run : List String → W → Result CommandOutput × W) (files : W → Files)
    (host_arch key_dir path : String) (s t : Machine W) (c : SecureBootConfig)
    → setup_secure_boot run files host_arch key_dir path s ≡ (ok c, t)
    → Enrolled run files host_arch key_dir path s c t
unfolding setup_secure_boot search_firmware
setup_secure_boot-Enrolled run files host_arch key_dir path s t c h =
    let (keys, a, l, h1) = >>=-eq-ok (load run key_dir) _ s h in
    let (i, b, f, h2) = >>=-eq-ok (search_firmware run files host_arch true) _ a h1 in
    let (_, d, e, h3) = >>=-eq-ok (customize_ovmf_vars run keys i.vars_path path) _ b h2 in
    let (config, same) = pure-eq-ok _ c d t h3 in
    Enrolled-of run files host_arch key_dir path keys i c s a d t l
      (load-keys run files host_arch key_dir s a keys l) (ap (λ p. p.0) f)
      (customize-Ran run keys i.vars_path path b d e) config same
