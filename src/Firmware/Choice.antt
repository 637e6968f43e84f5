-- ===== src/Firmware/Choice.antt =====
-- Which firmware the search of crates/kit/src/libvirt/secureboot.rs takes.
use bcvk.Common.{
  String, Bool, true, false, Option, none, some, List, [], ◌∷◌, ◌++◌, ◌≡◌, refl, ◌⊎◌, inl, inr, All,
  ◌==◌, if◌then◌else◌, not, ◌&&◌, ap,
}
use bcvk.Result.{Result, ok, >>=-eq-ok}
use bcvk.Firmware.{
  FirmwareExecutable, FirmwareNvramTemplate, FirmwareDescriptor, FirmwareInfo, Files,
  has_enrolled_keys, supports_architecture, supports_secure_boot, list_firmware_descriptors,
  load_firmware_descriptor, from_mapping, consider, first_suitable, find_firmware_from_descriptors,
  get_qemu_architecture,
}

module _ (require_secure_boot : Bool) (arch : String) where
  -- A descriptor is of the architecture, for another device than `memory`, without enrolled keys,
  -- with secure boot if that is required, and these are its files.
  pub record Suits (d : FirmwareDescriptor) (i : FirmwareInfo) : Type 0 where
    pub unenrolled : has_enrolled_keys d ≡ false
    pub architecture : supports_architecture arch d ≡ true
    pub secure : require_secure_boot ≡ true → supports_secure_boot d ≡ true
    pub not_memory : (d.mapping.device == "memory") ≡ false
    pub code : FirmwareExecutable
    pub vars : FirmwareNvramTemplate
    pub has_code : d.mapping.executable ≡ some code
    pub has_vars : d.mapping.nvram_template ≡ some vars
    pub is_code : (i.code_path ≡ code.filename) × (i.code_format ≡ code.format)
    pub is_vars : (i.vars_path ≡ vars.filename) × (i.vars_format ≡ vars.format)

module _ (files : Files) (r : Bool) (a : String) where
  mapping-cases :
      (d : FirmwareDescriptor) (later : Result FirmwareInfo) (i : FirmwareInfo)
      → has_enrolled_keys d ≡ false
      → supports_architecture a d ≡ true
      → (r ≡ true → supports_secure_boot d ≡ true)
      → (d.mapping.device == "memory") ≡ false
      → (e : Option FirmwareExecutable) (n : Option FirmwareNvramTemplate)
      → d.mapping.executable ≡ e
      → d.mapping.nvram_template ≡ n
      → from_mapping files e n later ≡ ok i
      → Suits r a d i ⊎ ((later ≡ ok i) × ((j : FirmwareInfo) → ¬ Suits r a d j))
  unfolding from_mapping
  mapping-cases d later i u s b m (some e) (some n) p q h = inl (record {
    unenrolled = u;
    architecture = s;
    secure = b;
    not_memory = m;
    code = e;
    vars = n;
    has_code = p;
    has_vars = q;
    is_code = (cc, cc);
    is_vars = (cc, cc);
  })
  mapping-cases d later i u s b m (some e) none p q h = inr (h, λ j k. let e = k.has_vars in cc)
  mapping-cases d later i u s b m none n p q h = inr (h, λ j k. let e = k.has_code in cc)

  consider-cases :
      (d : FirmwareDescriptor) (later : Result FirmwareInfo) (i : FirmwareInfo)
      → consider files r a d later ≡ ok i
      → Suits r a d i ⊎ ((later ≡ ok i) × ((j : FirmwareInfo) → ¬ Suits r a d j))
  unfolding consider
  consider-cases d later i h =
      split r (has_enrolled_keys d) (supports_architecture a d) (supports_secure_boot d)
        (d.mapping.device == "memory") refl refl refl refl refl h
    where
      split :
          (c u s b m : Bool)
          → r ≡ c
          → has_enrolled_keys d ≡ u
          → supports_architecture a d ≡ s
          → supports_secure_boot d ≡ b
          → (d.mapping.device == "memory") ≡ m
          → (if u
              then later
              else if not s
              then later
              else if c && not b
              then later
              else if m
              then later
              else from_mapping files d.mapping.executable d.mapping.nvram_template later)
            ≡ ok i
          → Suits r a d i ⊎ ((later ≡ ok i) × ((j : FirmwareInfo) → ¬ Suits r a d j))
      split c true s b m o p q v w k = inr (k, λ j z. let e = z.unenrolled in cc)
      split c false false b m o p q v w k = inr (k, λ j z. let e = z.architecture in cc)
      split true false true false m o p q v w k = inr (k, λ j z. let e = z.secure o in cc)
      split true false true true true o p q v w k = inr (k, λ j z. let e = z.not_memory in cc)
      split true false true true false o p q v w k =
          mapping-cases d later i p q (λ _. v) w _ _ refl refl k
      split false false true b true o p q v w k = inr (k, λ j z. let e = z.not_memory in cc)
      split false false true b false o p q v w k =
          mapping-cases d later i p q (λ y. cc) w _ _ refl refl k

  -- A descriptor that the search passes over.
  abbrev pub Skipped : String → Type 0
  Skipped path =
      (d : FirmwareDescriptor) × (load_firmware_descriptor files path ≡ ok d)
      × ((j : FirmwareInfo) → ¬ Suits r a d j)

  -- The firmware of the first descriptor of the list that suits.
  pub record Chosen (paths : List String) (i : FirmwareInfo) : Type 0 where
    pub before : List String
    pub path : String
    pub after : List String
    pub descriptor : FirmwareDescriptor
    pub listed : paths ≡ before ++ path ∷ after
    pub skipped : All Skipped before
    pub loaded : load_firmware_descriptor files path ≡ ok descriptor
    pub suits : Suits r a descriptor i

  first_suitable-Chosen :
      (paths : List String) (i : FirmwareInfo)
      → first_suitable files r a paths ≡ ok i
      → Chosen paths i
  unfolding first_suitable
  first_suitable-Chosen [] i h = cc
  first_suitable-Chosen (p ∷ rest) i h =
      let (d, l, h') = >>=-eq-ok (load_firmware_descriptor files p) _ h in
      elim (consider-cases d _ i h') [
        | inl s ↦ record {
          before = [];
          path = p;
          after = rest;
          descriptor = d;
          listed = refl;
          skipped = tt;
          loaded = l;
          suits = s;
        }
        | inr (k, none_of) ↦
            let c = first_suitable-Chosen rest i k in
            record {
              before = p ∷ c.before;
              path = c.path;
              after = c.after;
              descriptor = c.descriptor;
              listed = ap (λ ps. p ∷ ps) c.listed;
              skipped = ((d, l, none_of), c.skipped);
              loaded = c.loaded;
              suits = c.suits;
            }
      ]

-- The firmware that is found is that of the first listed descriptor that suits: it is for
-- QEMU's architecture, its device is not called `memory`, it has no enrolled keys, it has secure
-- boot if that is required, and it names both files. The descriptors before it could be read and do not suit.
pub find_firmware_from_descriptors-Chosen :
    (files : Files) (host_arch : String) (r : Bool) (i : FirmwareInfo)
    → find_firmware_from_descriptors files host_arch r ≡ ok i
    → (paths : List String) × (list_firmware_descriptors files ≡ ok paths)
      × Chosen files r (get_qemu_architecture host_arch) paths i
unfolding find_firmware_from_descriptors
find_firmware_from_descriptors-Chosen files host_arch r i h =
    let (paths, l, h') = >>=-eq-ok (list_firmware_descriptors files) _ h in
    (paths, l, first_suitable-Chosen files r (get_qemu_architecture host_arch) paths i h')
