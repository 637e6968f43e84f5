-- ===== src/Run/Metadata.antt =====
-- What the domain that crates/kit/src/libvirt/run.rs creates says of its image, as the listing of
-- crates/kit/src/domain_list.rs reads it.
pub mod Notes
use mathlib.Core.Option
use bcvk.Common.{
  ℕ, suc, String, Bool, true, false, Option, none, some, List, [], ◌∷◌, map, ◌≡◌, ◌≢◌, refl, subst,
  All, format, starts_with, if◌then◌else◌, ◌==◌, ◌||◌,
}
use bcvk.Result.{Result, ok, err, context, >>=-eq-ok}
use bcvk.Host.{Machine}
use bcvk.Host.Exec
use bcvk.Host.Exec.{Exec, pure, fail, lift, ◌>>=◌, ◌>>◌}
use bcvk.Host.Returns.{
  Returns, Returns-pure, Returns-fail, Returns-if, Returns-context, Returns-then, Returns-bind,
  Returns-lift,
}
use bcvk.Xml.{XmlNode, text_content, parse_xml_dom, find_with_namespace}
use bcvk.Builder.{DomainBuilder, add_fw_cfg, with_ignition_disk}
use bcvk.Builder.Document.{build_xml, element_name}
use bcvk.Builder.Metadata.{build_xml-metadata}
use bcvk.Ephemeral.{LogDir, journal_path, journal_initrd_path}
use bcvk.Firmware.Keys.{SecureBootConfig}
use bcvk.RunOptions.{BindMount}
use bcvk.Run.{LibvirtRunOpts, RunHost}
use bcvk.Run.Mounts.{
  Collected, add_volumes, bind_mounts_from, process_bind_mounts, add_storage, inject_ignition,
  add_ignition,
}
use bcvk.Run.Keys.{add_secure_boot}
use bcvk.Run.Logs.{add_logs, journal_channels}
use bcvk.Run.Create.{domain_builder, create_libvirt_domain_from_disk}
use bcvk.Run.Metadata.Notes.{Other, Tells, Tells-metadata, Tells-optionally, Tells-basic}

module _ {W : Type 0} (r : RunHost W) (vm image : String) where
  -- The builder among what was collected.
  pub record TellsIn (c : Collected) : Type 0 where
    pub inside : Tells vm image c.builder

  add_volumes-Tells :
      (vs : List String) (b : DomainBuilder)
      → Tells vm image b
      → Returns (Tells vm image) (add_volumes r vs b)
  unfolding add_volumes
  add_volumes-Tells [] b t = Returns-pure b t
  add_volumes-Tells (v ∷ vs) b t =
      Returns-bind _ _ (λ m. add_volumes-Tells vs _ (record { told = t.told; named = t.named }))

  bind_mounts-Tells :
      (idx : ℕ) (ms : List BindMount) (prefix : String) (readonly : Bool) (c : Collected)
      → TellsIn c
      → Returns TellsIn (bind_mounts_from r idx ms prefix readonly c)
  unfolding bind_mounts_from
  bind_mounts-Tells idx [] prefix readonly c t = Returns-pure c t
  bind_mounts-Tells idx (m ∷ ms) prefix readonly c t = Returns-bind _ _ (λ checked.
      Returns-bind _ _ (λ _.
        bind_mounts-Tells (suc idx) ms prefix readonly _
          (record { inside = record { told = t.inside.told; named = t.inside.named } })))

  add_storage-Tells : (b : Bool) (c : Collected) → TellsIn c → Returns TellsIn (add_storage r b c)
  unfolding add_storage element_name starts_with
  add_storage-Tells false c t = Returns-pure c t
  add_storage-Tells true c t = Returns-bind _ _ (λ _. Returns-bind _ _ (λ path.
      Returns-bind _ _ (λ _. Returns-pure _ (record {
        inside = Tells-metadata vm image "bootc:storage-path" path _ refl (
            Tells-metadata vm image "bootc:bind-storage-ro" "true" _ refl
              (record { told = t.inside.told; named = t.inside.named }));
      }))))

  injected-Tells :
      (path : String) (b c : DomainBuilder)
      → Tells vm image b
      → inject_ignition r path b ≡ ok c
      → Tells vm image c
  unfolding inject_ignition
  injected-Tells path b c t e =
      chosen (r.arch == "x86_64" || r.arch == "aarch64")
        (r.arch == "s390x" || r.arch == "powerpc64le") _ e
    where
      chosen :
          (x y : Bool) (message : String)
          → (if x
              then ok (add_fw_cfg "opt/com.coreos/config" path b)
              else if y
              then ok (with_ignition_disk path b)
              else err message)
            ≡ ok c
          → Tells vm image c
      chosen true y message e =
          let same : add_fw_cfg "opt/com.coreos/config" path b ≡ c = cc in
          subst (Tells vm image) same (record { told = t.told; named = t.named })
      chosen false true message e =
          let same : with_ignition_disk path b ≡ c = cc in
          subst (Tells vm image) same (record { told = t.told; named = t.named })
      chosen false false message e = cc

  add_ignition-Tells :
      (uri : Option String) (name : String) (path : Option String) (b : DomainBuilder)
      → Tells vm image b
      → Returns (Tells vm image) (add_ignition r uri name path b)
  unfolding add_ignition element_name starts_with
  add_ignition-Tells uri name none b t = Returns-pure b t
  add_ignition-Tells uri name (some path) b t = Returns-bind _ _ (λ pool. Returns-bind _ _ (λ _.
      Returns-then _ _ (Returns-lift _ (λ injected e. injected-Tells _ b injected t e))
        (λ injected i. Returns-pure _ (
          Tells-metadata vm image "bootc:ignition-persistent-path" _ _ refl
            (Tells-metadata vm image "bootc:ignition-config" path _ refl i)))))

  add_secure_boot-Tells :
      (config : Option SecureBootConfig) (b : DomainBuilder)
      → Tells vm image b
      → Returns (Tells vm image) (add_secure_boot r config b)
  unfolding add_secure_boot element_name starts_with
  add_secure_boot-Tells none b t = Returns-pure b t
  add_secure_boot-Tells (some config) b t = Returns-bind _ _ (λ info. Returns-bind _ _ (λ path.
      Returns-pure _ (
        Tells-metadata vm image "bootc:secure-boot-keys" config.key_dir _ refl
          (record { told = t.told; named = t.named }))))

  journal_channels-Tells :
      (d : Option LogDir) (b : DomainBuilder)
      → Tells vm image b
      → Tells vm image (journal_channels r d b)
  unfolding journal_channels
  journal_channels-Tells none b t = t
  journal_channels-Tells (some d) b t =
      Tells-optionally vm image _ (journal_initrd_path d) _
        (λ p u. record { told = u.told; named = u.named })
        (Tells-optionally vm image _ (journal_path d) _
          (λ p u. record { told = u.told; named = u.named }) t)

  add_logs-Tells :
      (opts : LibvirtRunOpts) (b : DomainBuilder)
      → Tells vm image b
      → Returns (Tells vm image) (add_logs r opts b)
  unfolding add_logs
  add_logs-Tells opts b t = Returns-bind _ _ (λ virtio. Returns-bind _ _ (λ serial.
      Returns-bind _ _ (λ _. Returns-pure _ (
        Tells-optionally vm image _ serial _ (λ p u. record { told = u.told; named = u.named })
          (Tells-optionally vm image _ virtio _ (λ p u. record { told = u.told; named = u.named })
            t)))))

  mounts-Tells :
      (opts : LibvirtRunOpts) (c : Collected)
      → TellsIn c
      → Returns TellsIn (
          process_bind_mounts r opts.bind_mounts "bcvk-bind-" false c >>= λ writable.
          process_bind_mounts r opts.bind_mounts_ro "bcvk-bind-ro-" true writable >>= λ both.
          add_storage r opts.bind_storage_ro both)
  unfolding process_bind_mounts
  mounts-Tells opts c t =
      Returns-then _ _ (bind_mounts-Tells 0 opts.bind_mounts "bcvk-bind-" false c t) (λ w u.
        Returns-then _ _ (bind_mounts-Tells 0 opts.bind_mounts_ro "bcvk-bind-ro-" true w u)
          (λ both v. add_storage-Tells opts.bind_storage_ro both v))

  pub domain_builder-Tells :
      (uri : Option String) (name disk digest : String) (opts : LibvirtRunOpts)
      → name ≡ vm
      → opts.image ≡ image
      → All Other opts.metadata
      → Returns (Tells vm image) (domain_builder r uri name disk digest opts)
  unfolding domain_builder
  domain_builder-Tells uri name disk digest opts called same others = Returns-bind _ _ (λ port.
      Returns-bind _ _ (λ keys. Returns-bind _ _ (λ memory. Returns-bind _ _ (λ config.
        Returns-then _ _
          (add_secure_boot-Tells config _
            (Tells-basic vm image name disk digest _ memory _ port opts called same others))
          (λ secured a. Returns-then _ _ (add_volumes-Tells opts.raw_volumes secured a) (λ b u.
            Returns-then _ _ (mounts-Tells opts _ (record { inside = u })) (λ c v.
              Returns-then _ _ (add_ignition-Tells uri name opts.ignition_config c.builder v.inside)
                (λ ignited i. Returns-bind _ _ (λ journal.
                  Returns-then _ _
                    (add_logs-Tells opts _ (journal_channels-Tells opts.log_dir ignited i))
                    (λ logged l.
                      Returns-pure _ (record { told = l.told; named = l.named })))))))))))
