-- ===== src/Tests/Texts.antt =====
-- The theorems on texts, trees and configurations, applied.
use bcvk.Common.{
  Char, code, leb, ℕ, ◌+◌, ◌*◌, ◌%◌, ◌^◌, ◌≤◌, String, [], ◌∷◌, map, contains, Option, none, some,
  Bool, false, ◌≡◌, refl, All, format, arith, to_string, join, trim, any_char, is_empty_text, eqb,
  if◌then◌else◌,
}
use bcvk.Result.{ok}
use bcvk.Xml.{
  get, XmlNode, node, nil, cons, parse_xml_dom, write_xml_node, start_element, end_element,
  write_text, write_text_element_with_attrs,
}
use bcvk.Xml.Delivered.{all_kept, is_kept, is_name}
use bcvk.Xml.RoundTrip.{parse_xml_dom-write_xml_node}
use bcvk.Sizes.{parse_size}
use bcvk.Sizes.ParseSize.{documented_units, parse_size-documented}
use bcvk.RunOptions.{validate_labels, label_metadata}
use bcvk.RunOptions.Names.{Fresh, generate_unique_vm_name, generate_unique_vm_name-Fresh}
use bcvk.DomainList.{split_labels}
use bcvk.DomainList.Labels.{split_labels-label_metadata}
use bcvk.Qemu.{QemuConfig, new_direct_boot, validate}
use bcvk.Qemu.Arguments.{spawn, command_args}
use bcvk.Qemu.Bounds.{spawn-bounds}
use bcvk.Qemu.Vsock.{
  Answer, assigned, addr_in_use, allocate_vsock_cid, InUse, allocate_vsock_cid-assigned,
}

abbrev same : String → String
same t = t

abbrev leaf : XmlNode
leaf = node "path" [] "/pool" nil

abbrev tree : XmlNode
tree = node "pool" (("type", "dir") ∷ []) "" (cons leaf nil)

abbrev unescaped : String → Option String
unescaped t = some t

parse_xml_dom-write_xml_node_example :
    parse_xml_dom unescaped (map ok (write_xml_node same tree)) ≡ ok tree
unfolding get write_xml_node all_kept is_kept is_name trim contains start_element end_element
    write_text write_text_element_with_attrs
parse_xml_dom-write_xml_node_example =
    parse_xml_dom-write_xml_node unescaped same (map ok) tree (λ t. refl) (λ _. refl)
      ((refl, tt), (refl, tt), ((tt, tt, tt), tt)) refl

parse_size-documented_example :
    All
      (λ u. parse_size (format (to_string 20 ∷ u.0 ∷ [])) ≡ ok (20 * 1024 ^ u.1 % 2 ^ 64))
      documented_units
parse_size-documented_example = parse_size-documented 20 (omega arith)

abbrev is_letter : Char → Bool
is_letter c = leb 97 (code c)

generate_unique_vm_name-Fresh_example :
    Fresh
      ("web" ∷ "web-2" ∷ [])
      (generate_unique_vm_name is_letter 3 "quay.io/me/web:latest" ("web" ∷ "web-2" ∷ []))
generate_unique_vm_name-Fresh_example =
    generate_unique_vm_name-Fresh is_letter 3 "quay.io/me/web:latest" ("web" ∷ "web-2" ∷ [])
      (omega arith)

split_labels-label_metadata_example : split_labels "dev,test" ≡ "dev" ∷ "test" ∷ []
unfolding validate_labels any_char label_metadata join trim
split_labels-label_metadata_example =
    split_labels-label_metadata "dev" ("test" ∷ []) "dev,test" refl
      ((refl, refl), ((refl, refl), tt)) refl

abbrev config : QemuConfig
config = new_direct_boot 2048 2 "/vmlinuz" "/initrd" "/run/fs.sock"

abbrev nowhere : String → Bool
nowhere path = false

spawn-bounds_example :
    (128 ≤ 2048)
    × (2048 ≤ 1024 * 1024)
    × (1 ≤ 2)
    × (2 ≤ 256)
    × All (λ m. is_empty_text m.tag ≡ false) config.additional_mounts
unfolding spawn validate new_direct_boot
spawn-bounds_example =
    spawn-bounds nowhere "x86_64" config [] none (command_args "x86_64" config [] none) refl

abbrev second : ℕ → Answer
second n = if eqb n 3 then addr_in_use else assigned

allocate_vsock_cid-assigned_example :
    (n : ℕ) × (4 ≡ 3 + n) × (4 ≤ 10000) × (second 4 ≡ assigned) × InUse second 3 n
unfolding allocate_vsock_cid
allocate_vsock_cid-assigned_example = allocate_vsock_cid-assigned second 4 refl
