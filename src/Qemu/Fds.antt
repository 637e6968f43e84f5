-- ===== src/Qemu/Fds.antt =====
-- The descriptors that QEMU is given (crates/bcvk-qemu/src/qemu.rs).
use bcvk.Common.{
  ℕ, ◌+◌, ◌-◌, suc, String, List, [], ◌∷◌, ◌++◌, Option, ◌≡◌, refl, ap, ◌∙◌, arith, format,
  to_string, length, length-append,
}
use bcvk.Qemu.{QemuConfig, add_fd}
use bcvk.Qemu.Arguments.{fd_args, command_args, args_before, args_after}

abbrev pub set_args : ℕ → List String
set_args set =
    "-add-fd" ∷ format ("fd=" ∷ to_string (100 + (set - 1)) ∷ ",set=" ∷ to_string set ∷ []) ∷ []

fd_args-snoc :
    (idx : ℕ) (fds : List ℕ) (fd : ℕ)
    → fd_args idx (fds ++ fd ∷ []) ≡ fd_args idx fds ++ set_args (idx + length fds + 1)
unfolding fd_args
fd_args-snoc idx [] fd =
    let e : idx + 0 + 1 - 1 ≡ idx = omega arith in
    let f : idx + 0 + 1 ≡ idx + 1 = omega arith in rw e (rw f refl)
fd_args-snoc idx (f ∷ fds) fd =
    let e : idx + 1 + length fds + 1 ≡ idx + suc (length fds) + 1 = omega arith in
    let more = fd_args-snoc (idx + 1) fds fd in rw more (rw e refl)

-- The name that `add_fd` gives is that of a descriptor set which QEMU is then given: with the
-- descriptor, QEMU's arguments are those without it, and after the other descriptors' the one that
-- passes the set of that name.
pub add_fd-passed :
    (arch : String) (c : QemuConfig) (fd : ℕ) (extra : List String) (vsock : Option ℕ)
    → (n : ℕ) × (before : List String) × (after : List String) × ((add_fd fd c).0
        ≡ format ("/dev/fdset/" ∷ to_string n ∷ []))
      × (command_args arch c extra vsock ≡ before ++ fd_args 0 c.fdset ++ after)
      × (command_args arch (add_fd fd c).1 extra vsock
          ≡ before ++ (fd_args 0 c.fdset ++ set_args n) ++ after)
unfolding command_args add_fd
add_fd-passed arch c fd extra vsock =
    let more = fd_args-snoc 0 c.fdset fd in
    let e : 0 + length c.fdset + 1 ≡ length (c.fdset ++ fd ∷ []) =
      omega (arith, length-append c.fdset (fd ∷ [])) in
    (
      length (c.fdset ++ fd ∷ []),
      args_before arch c,
      args_after c extra vsock,
      refl,
      refl,
      ap (λ fds. args_before arch c ++ fds ++ args_after c extra vsock)
          (more ∙ ap (λ n. fd_args 0 c.fdset ++ set_args n) e),
    )
