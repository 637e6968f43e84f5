-- ===== src/Run/Metadata/Notes.antt =====
-- The builders of crates/kit/src/libvirt/run.rs that hold a text for the image.
use bcvk.Common.{
  ℕ, String, Bool, true, false, Option, none, some, [], ◌∷◌, ◌≡◌, refl, ap, ◌∙◌, All, arith, eq_iff,
  ◌==◌, if◌then◌else◌, starts_with,
}
use bcvk.Xml.{Attributes, insert, get}
use bcvk.Builder.{
  DomainBuilder, FirmwareLogOutput, with_metadata, with_graphical_console, with_firmware_log,
}
use bcvk.Builder.Document.{element_name}
use bcvk.Builder.Metadata.{renamed}
use bcvk.RunOptions.{label_metadata}
use bcvk.Run.{LibvirtRunOpts}
use bcvk.InstanceType.{to_text}
use bcvk.Run.Configuration.{machine_builder, notes, basic_builder, optionally, whenever, with_all}

abbrev pub source_image : String
source_image = "bootc:source-image"

-- A key that is written as another element.
abbrev pub Other : String × String → Type 0
Other m = (element_name m.0 == source_image) ≡ false

-- The builder holds this text for the image, and this name.
pub record Tells (vm image : String) (b : DomainBuilder) : Type 0 where
  pub named : b.name ≡ some vm
  pub told : get source_image (renamed b.metadata) ≡ some image

get-insert :
    (k v : String) (m : Attributes)
    → Other (k, v)
    → get source_image (renamed (insert k v m)) ≡ get source_image (renamed m)
unfolding get insert
get-insert k v [] o = ground arith
get-insert k v ((j, w) ∷ m) o = let ih = get-insert k v m o in split (j == k) refl ih
  where
    split :
        (b : Bool)
        → (j == k) ≡ b
        → get source_image (renamed (insert k v m)) ≡ get source_image (renamed m)
        → get source_image (renamed (if b then (k, v) ∷ m else (j, w) ∷ insert k v m))
          ≡ get source_image (renamed ((j, w) ∷ m))
    split true e ih = let same : j ≡ k = ground (arith, eq_iff j k) in rw same (ground arith)
    split false e ih = ground arith

module _ (vm image : String) where
  pub Tells-metadata :
      (k v : String) (b : DomainBuilder)
      → Other (k, v)
      → Tells vm image b
      → Tells vm image (with_metadata k v b)
  unfolding with_metadata
  Tells-metadata k v b o t = record {
    named = t.named;
    told = rw (get-insert k v b.metadata o) t.told;
  }

  pub Tells-with_all :
      (m : Attributes) (b : DomainBuilder)
      → All Other m
      → Tells vm image b
      → Tells vm image (with_all m b)
  Tells-with_all [] b _ t = t
  Tells-with_all ((k, v) ∷ m) b (o, os) t = Tells-with_all m _ os (Tells-metadata k v b o t)

  pub Tells-optionally :
      {A : Type 0} (f : A → DomainBuilder → DomainBuilder) (a : Option A) (b : DomainBuilder)
      → ((x : A) → Tells vm image b → Tells vm image (f x b))
      → Tells vm image b
      → Tells vm image (optionally f a b)
  Tells-optionally f none b k t = t
  Tells-optionally f (some a) b k t = k a t

  pub Tells-first :
      (b : DomainBuilder)
      → b.name ≡ some vm
      → b.metadata ≡ []
      → Tells vm image (with_metadata source_image image b)
  unfolding with_metadata insert get element_name starts_with
  Tells-first b n e = record { named = n; told = rw e refl }

  machine-empty :
      (name disk : String) (memory cpus : ℕ) (opts : LibvirtRunOpts)
      → (machine_builder name disk memory cpus opts).metadata ≡ []
  unfolding machine_builder
  machine-empty name disk memory cpus opts = flags opts.firmware_log opts.graphical_console _ refl
    where
      flags :
          (l g : Bool) (b : DomainBuilder)
          → b.metadata ≡ []
          → (whenever g with_graphical_console
              (whenever l (with_firmware_log FirmwareLogOutput.console) b)).metadata
            ≡ []
      flags true true b e = e
      flags true false b e = e
      flags false true b e = e
      flags false false b e = e

  machine-name :
      (name disk : String) (memory cpus : ℕ) (opts : LibvirtRunOpts)
      → (machine_builder name disk memory cpus opts).name ≡ some name
  unfolding machine_builder
  machine-name name disk memory cpus opts = flags opts.firmware_log opts.graphical_console _ refl
    where
      flags :
          (l g : Bool) (b : DomainBuilder)
          → b.name ≡ some name
          → (whenever g with_graphical_console
              (whenever l (with_firmware_log FirmwareLogOutput.console) b)).name
            ≡ some name
      flags true true b e = e
      flags true false b e = e
      flags false true b e = e
      flags false false b e = e

  notes-Other :
      (digest key : String) (memory cpus port : ℕ) (opts : LibvirtRunOpts)
      → All Other (notes digest key memory cpus port opts)
  unfolding notes element_name starts_with
  notes-Other digest key memory cpus port opts =
      (refl, (refl, (refl, (refl, (refl, (refl, (refl, (refl, (refl, tt)))))))))

  pub Tells-basic :
      (name disk digest key : String) (memory cpus port : ℕ) (opts : LibvirtRunOpts)
      → name ≡ vm
      → opts.image ≡ image
      → All Other opts.metadata
      → Tells vm image (basic_builder name disk digest key memory cpus port opts)
  unfolding basic_builder element_name starts_with
  Tells-basic name disk digest key memory cpus port opts called same others =
      let machine = machine_builder name disk memory cpus opts in
      let first : Tells vm image (with_metadata source_image opts.image machine) = rw same (
        Tells-first machine (machine-name name disk memory cpus opts ∙ ap some called)
          (machine-empty name disk memory cpus opts)) in
      Tells-with_all opts.metadata _ others (
        Tells-optionally (with_metadata "bootc:label") (label_metadata opts.label) _
          (λ v. Tells-metadata "bootc:label" v _ refl)
          (Tells-optionally _ opts.itype _
            (λ i. Tells-metadata "bootc:instance-type" (to_text i) _ refl)
            (Tells-with_all (notes digest key memory cpus port opts) _
              (notes-Other digest key memory cpus port opts) first)))
