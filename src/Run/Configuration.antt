-- ===== src/Run/Configuration.antt =====
-- crates/kit/src/libvirt/run.rs: what the creation of a domain works out of its options alone: the
-- builder's first values, and arguments of QEMU.
use bcvk.Common.{
  ℕ, String, Bool, true, false, not, Option, none, some, List, [], ◌∷◌, map, format, join,
  to_string, unwrap_or,
}
use bcvk.Xml.{Attributes}
use bcvk.Builder.{
  DomainBuilder, FirmwareLogOutput, new_builder, with_name, with_memory, with_vcpus, with_disk,
  with_transient_disk, with_network, with_firmware, with_tpm, with_firmware_log,
  with_graphical_console, with_metadata,
}
use bcvk.InstanceType.{InstanceType, to_text}
use bcvk.RunOptions.{PortMapping, label_metadata}
use bcvk.Run.{LibvirtRunOpts}

-- a method that is called where there is a value, or where a flag is set
abbrev pub optionally :
    {A : Type 0} → (A → DomainBuilder → DomainBuilder) → Option A → DomainBuilder → DomainBuilder
optionally f none b = b
optionally f (some a) b = f a b

abbrev pub whenever : Bool → (DomainBuilder → DomainBuilder) → DomainBuilder → DomainBuilder
whenever true f b = f b
whenever false f b = b

abbrev pub with_all : Attributes → DomainBuilder → DomainBuilder
with_all [] b = b
with_all ((key, value) ∷ rest) b = with_all rest (with_metadata key value b)

unfoldable pub machine_builder : String → String → ℕ → ℕ → LibvirtRunOpts → DomainBuilder
machine_builder domain_name disk_path memory cpus opts =
    let machine : DomainBuilder = with_tpm (not opts.disable_tpm) (
      with_firmware opts.firmware (
        with_network "none" (
          with_transient_disk opts.transient (
            with_disk disk_path
              (with_vcpus cpus (with_memory memory (with_name domain_name new_builder))))))) in
    let logged = whenever opts.firmware_log (with_firmware_log FirmwareLogOutput.console) machine in
    whenever opts.graphical_console with_graphical_console logged

-- what is noted of every domain, after its image
unfoldable pub notes : String → String → ℕ → ℕ → ℕ → LibvirtRunOpts → Attributes
notes image_digest private_key memory cpus ssh_port opts =
    ("bootc:memory-mb", to_string memory)
    ∷ ("bootc:vcpus", to_string cpus)
    ∷ ("bootc:disk-size-gb", opts.disk_size)
    ∷ ("bootc:filesystem", unwrap_or opts.install.filesystem "ext4")
    ∷ ("bootc:network", opts.network)
    ∷ ("bootc:ssh-generated", "true")
    ∷ ("bootc:ssh-private-key-base64", private_key)
    ∷ ("bootc:ssh-port", to_string ssh_port)
    ∷ ("bootc:image-digest", image_digest)
    ∷ []

-- the builder with its metadata, the caller's last
unfoldable pub basic_builder :
    String → String → String → String → ℕ → ℕ → ℕ → LibvirtRunOpts → DomainBuilder
unfolding machine_builder notes
basic_builder domain_name disk_path image_digest private_key memory cpus ssh_port opts =
    let noted = with_all (notes image_digest private_key memory cpus ssh_port opts) (
      with_metadata "bootc:source-image" opts.image
        (machine_builder domain_name disk_path memory cpus opts)) in
    let typed =
      optionally (λ (i : InstanceType). with_metadata "bootc:instance-type" (to_text i)) opts.itype
        noted in
    let labelled = optionally (with_metadata "bootc:label") (label_metadata opts.label) typed in
    with_all opts.metadata labelled

abbrev pub smbios : List String → List String
smbios [] = []
smbios (cred ∷ rest) = "-smbios" ∷ format ("type=11,value=" ∷ cred ∷ []) ∷ smbios rest

-- the forwarding of the port for ssh and of the mapped ports
abbrev pub netdev : ℕ → List PortMapping → String
netdev ssh_port mappings =
    let forwards : List String =
      format ("tcp::" ∷ to_string ssh_port ∷ "-:22" ∷ [])
      ∷ map (λ m. format ("tcp::" ∷ to_string m.host_port ∷ "-:" ∷ to_string m.guest_port ∷ []))
          mappings in
    format ("user,id=ssh0," ∷ join "," (map (λ f. format ("hostfwd=" ∷ f ∷ [])) forwards) ∷ [])
