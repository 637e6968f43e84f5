-- ===== src/Qemu/Vsock.antt =====
-- crates/bcvk-qemu/src/qemu.rs: the allocation of a context id for the guest's socket. `set_cid` is
-- the ioctl on the device.
use bcvk.Common.{ℕ, zero, suc, ◌+◌, ◌≤◌, ◌<◌, String, ◌≡◌, refl, sym, arith}
use bcvk.Result.{Result, ok, err}

-- what the ioctl answers
pub data Answer : Type 0 where
  assigned : Answer
  addr_in_use : Answer
  failed : String → Answer

answered : ℕ → Answer → Result ℕ → Result ℕ
answered cid assigned rest = ok cid
answered cid addr_in_use rest = rest
answered cid (failed e) rest = err e

-- the candidates from `cid` on, of which `left` are left
unfoldable pub try_from : (ℕ → Answer) → ℕ → ℕ → Result ℕ
unfolding answered
try_from set_cid cid zero = err "Could not find available VSOCK CID (tried 3-10000)"
try_from set_cid cid (suc left) = answered cid (set_cid cid) (try_from set_cid (cid + 1) left)

-- `for candidate_cid in 3..10001`
unfoldable pub allocate_vsock_cid : (ℕ → Answer) → Result ℕ
unfolding try_from
allocate_vsock_cid set_cid = try_from set_cid 3 9998

-- every candidate from `from` on and below `cid` is in use
abbrev pub InUse : (ℕ → Answer) → ℕ → ℕ → Type 0
InUse set_cid from zero = Unit
InUse set_cid from (suc n) = (set_cid from ≡ addr_in_use) × InUse set_cid (from + 1) n

abbrev FirstFree : (ℕ → Answer) → ℕ → ℕ → ℕ → Type 0
FirstFree set_cid from left cid =
    (n : ℕ) × (cid ≡ from + n) × (n < left) × (set_cid cid ≡ assigned) × InUse set_cid from n

first_free :
    (set_cid : ℕ → Answer) (from left cid : ℕ)
    → try_from set_cid from left ≡ ok cid
    → FirstFree set_cid from left cid
unfolding try_from
first_free set_cid from zero cid e = cc
first_free set_cid from (suc left) cid e =
    go (set_cid from) refl (λ k. first_free set_cid (from + 1) left cid k) e
  where
    go :
        (a : Answer)
        → set_cid from ≡ a
        → (try_from set_cid (from + 1) left ≡ ok cid → FirstFree set_cid (from + 1) left cid)
        → answered from a (try_from set_cid (from + 1) left) ≡ ok cid
        → FirstFree set_cid from (suc left) cid
    go assigned q ih e =
        let same : from ≡ cid = ground arith in
        (zero, ground arith, ground arith, rw (sym same) q, tt)
    go addr_in_use q ih e =
        let (n, p, b, a, u) = ih e in (suc n, omega (arith, p), omega (arith, b), a, (q, u))
    go (failed x) q ih e = cc

-- An id that has been allocated is one of 3 to 10000 that the device accepted, and the device
-- called every one below it in use.
pub allocate_vsock_cid-assigned :
    (set_cid : ℕ → Answer) (cid : ℕ)
    → allocate_vsock_cid set_cid ≡ ok cid
    → (n : ℕ) × (cid ≡ 3 + n) × (cid ≤ 10000) × (set_cid cid ≡ assigned) × InUse set_cid 3 n
unfolding allocate_vsock_cid
allocate_vsock_cid-assigned set_cid cid e =
    let (n, q, b, a, u) = first_free set_cid 3 9998 cid e in (n, q, omega (arith, q, b), a, u)
