-- ===== src/Sizes/Units.antt =====
-- The conversion of libvirt's memory sizes (crates/kit/src/libvirt/mod.rs).
use bcvk.Common.{ℕ, ◌+◌, ◌*◌, ◌^◌, ◌≤◌, ◌<◌, String, some, ◌≡◌, arith}
use bcvk.Sizes.{unit_to_bytes, convert_memory_to_mb}

-- A memory size that is converted to mebibytes fits in thirty-two bits, and is the largest number of
-- mebibytes that is not more than the size in bytes.
pub convert_memory_to_mb-rounds_down :
    (value bytes_per_unit mb : ℕ) (unit : String)
    → unit_to_bytes unit ≡ some bytes_per_unit
    → convert_memory_to_mb value unit ≡ some mb
    → (mb < 2 ^ 32)
      × (mb * 1048576 ≤ value * bytes_per_unit)
      × (value * bytes_per_unit < (mb + 1) * 1048576)
unfolding convert_memory_to_mb
convert_memory_to_mb-rounds_down value bytes_per_unit mb unit u e =
    (ground arith, ground arith, ground arith)
