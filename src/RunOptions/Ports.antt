-- ===== src/RunOptions/Ports.antt =====
-- The text of a port mapping, read back (crates/kit/src/libvirt/run.rs).
use Prim.Native.String
use text.Mathlib.TextLemmas.{nil-append, cons-append, append-nil}
use bcvk.Common.{
  ℕ, ◌<◌, ◌^◌, String, some, ◌≡◌, refl, ap, sym, ◌∙◌, arith, split_once, trim, trim_end, to_string,
  IsDigits, to_string-IsDigits, to_string-ne-empty, parse_uint-to_string,
}
use bcvk.Common.Text.Trim.{trim-digits}
use bcvk.Result.{ok}
use bcvk.RunOptions.{PortMapping, parse_port_mapping, show_port_mapping}

split_once-digits :
    (s q : String) → IsDigits s → split_once ":" (String.◌++◌ s (String.◌++◌ ":" q)) ≡ some (s, q)
unfolding split_once
split_once-digits String.[] q d = rw (nil-append, cons-append, nil-append) refl
split_once-digits (String.◌∷◌ c s) q d =
    let ih = split_once-digits s q d.1 in
    let lo = d.0.0 in let hi = d.0.1 in rw cons-append (ground (arith, ih))

trim-number : (n : ℕ) → trim (to_string n) ≡ to_string n
unfolding trim_end
trim-number n =
    ap trim (sym (append-nil (to_string n)))
    ∙ trim-digits (to_string n) "" (to_string-ne-empty n) (to_string-IsDigits n) refl
    ∙ append-nil (to_string n)

-- The text of a port mapping is read back as that port mapping.
pub parse_port_mapping-show_port_mapping :
    (p : PortMapping)
    → p.host_port < 2 ^ 16
    → p.guest_port < 2 ^ 16
    → parse_port_mapping (show_port_mapping p) ≡ ok p
unfolding parse_port_mapping show_port_mapping
parse_port_mapping-show_port_mapping p h g =
    let cut =
      split_once-digits (to_string p.host_port) (to_string p.guest_port)
        (to_string-IsDigits p.host_port) in
    let a = parse_uint-to_string 16 p.host_port h in
    let b = parse_uint-to_string 16 p.guest_port g in
    rw cut (rw (trim-number p.host_port) (rw (trim-number p.guest_port) (rw a (rw b refl))))
