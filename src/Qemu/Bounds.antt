-- ===== src/Qemu/Bounds.antt =====
-- Which configurations QEMU is started with (crates/bcvk-qemu/src/qemu.rs).
use bcvk.Common.{
  ℕ, ◌*◌, ◌≤◌, String, List, [], ◌∷◌, Option, Bool, false, ◌≡◌, arith, All, is_empty_text,
}
use bcvk.Result.{ok}
use bcvk.Qemu.{QemuConfig, VirtiofsMount, check_mounts, validate}
use bcvk.Qemu.Arguments.{spawn}

module _ (exists : String → Bool) where
  mounts-tagged :
      (ms : List VirtiofsMount)
      → check_mounts exists ms ≡ ok tt
      → All (λ m. is_empty_text m.tag ≡ false) ms
  unfolding check_mounts
  mounts-tagged [] e = tt
  mounts-tagged (m ∷ ms) e = (ground arith, mounts-tagged ms (ground arith))

-- QEMU is started only with 128 MiB to 1 TiB of memory, with 1 to 256 processors, and with a tag on
-- each additional mount.
pub spawn-bounds :
    (exists : String → Bool) (arch : String) (c : QemuConfig) (extra : List String)
    (vsock : Option ℕ) (args : List String)
    → spawn exists arch c extra vsock ≡ ok args
    → (128 ≤ c.memory_mb)
      × (c.memory_mb ≤ 1024 * 1024)
      × (1 ≤ c.vcpus)
      × (c.vcpus ≤ 256)
      × All (λ m. is_empty_text m.tag ≡ false) c.additional_mounts
unfolding spawn validate
spawn-bounds exists arch c extra vsock args e = (
  ground arith,
  ground arith,
  ground arith,
  ground arith,
  mounts-tagged exists c.additional_mounts (ground arith),
)
