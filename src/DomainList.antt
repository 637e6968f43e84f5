-- ===== src/DomainList.antt =====
-- crates/kit/src/domain_list.rs: what the program knows of the domains that libvirt has, and
-- `run_virsh_xml` of crates/kit/src/libvirt/run.rs.
pub mod Labels
pub mod Listing
pub mod Names
use mathlib.Core.Option
use bcvk.Common.{
  ℕ, String, List, [], ◌∷◌, ◌++◌, map, Option, none, some, Bool, true, false, not, ◌==◌, ◌||◌, ◌&&◌,
  format, if◌then◌else◌, or_else, is_some, unwrap_or, is_empty_text, trim, lines, split, parse_uint,
  filter_chars, is_whitespace,
}
use bcvk.Result.{Result, ok, err}
use bcvk.Host.{Host, Output}
use bcvk.Host.Exec.{Exec, pure, fail, lift, with_context, attempt, virsh, ◌>>=◌, ◌>>◌}
use bcvk.Xml.{
  Attributes, XmlNode, node, Children, nil, cons, attributes, text_content, get, find,
  find_with_namespace, parse_xml_dom,
}
use bcvk.Sizes.{parse_memory_mb}

pub record PodmanBootcDomain : Type 0 where
  pub name : String
  pub state : String
  pub image : Option String
  pub memory_mb : Option ℕ
  pub vcpus : Option ℕ
  pub disk_path : Option String
  pub labels : List String
  pub ssh_port : Option ℕ
  pub has_ssh_key : Bool
  pub ssh_private_key : Option String

unfoldable pub is_running : PodmanBootcDomain → Bool
is_running d = d.state == "running"

unfoldable pub status_string : PodmanBootcDomain → String
status_string d =
    if d.state == "running"
    then "running"
    else if d.state == "shut off"
    then "stopped"
    else if d.state == "paused"
    then "paused"
    else d.state

-- `find_disk_with_file_type`, in document order
unfoldable mutual
  pub find_disk_with_file_type : XmlNode → Option XmlNode
  find_disk_with_file_type (node n a t c) =
      if n == "disk"
        && (elim (get "type" a) [ none ↦ false | some disk_type ↦ disk_type == "file" ])
      then some (node n a t c)
      else find_disk_in c

  pub find_disk_in : Children → Option XmlNode
  find_disk_in nil = none
  find_disk_in (cons child rest) = or_else (find_disk_with_file_type child) (find_disk_in rest)

unfoldable pub extract_disk_path : XmlNode → Option String
extract_disk_path dom = elim (find_disk_with_file_type dom) [
  | none ↦ none
  | some disk ↦ elim (find "source" disk) [
    | none ↦ none
    | some source ↦ get "file" (attributes source)
  ]
]

unfoldable pub drop_blank : List String → List String
drop_blank [] = []
drop_blank (s ∷ rest) = if is_empty_text (trim s) then drop_blank rest else trim s ∷ drop_blank rest

-- the labels of a domain, which are kept in one text with commas between them
unfoldable pub split_labels : String → List String
unfolding drop_blank
split_labels text = drop_blank (split "," text)

unfoldable pub extract_labels : XmlNode → List String
unfolding split_labels
extract_labels dom = elim (or_else (find "bootc:label" dom) (find "label" dom)) [
  | none ↦ []
  | some label ↦ split_labels (text_content label)
]

abbrev text_of : Option XmlNode → Option String
text_of = Option.map text_content

abbrev parsed : ℕ → Option XmlNode → Option ℕ
parsed width none = none
parsed width (some n) = parse_uint width (text_content n)

unfoldable pub is_podman_bootc_domain : XmlNode → Bool
is_podman_bootc_domain dom =
    is_some (find "bootc:source-image" dom)
    || is_some (find "source-image" dom)
    || is_some (find "bootc:container" dom)

module _ {W : Type 0} (h : Host W) where
  unfoldable pub extract_ssh_private_key : XmlNode → Option String
  extract_ssh_private_key dom = elim (find_with_namespace "ssh-private-key-base64" dom) [
    | some encoded ↦
        h.decode_base64 (filter_chars (λ c. not (is_whitespace c)) (text_content encoded))
    | none ↦ text_of (find_with_namespace "ssh-private-key" dom)
  ]

  unfoldable pub run_virsh_xml : Option String → List String → Exec W XmlNode
  run_virsh_xml uri args = do
    output ← with_context (virsh h uri args) "Failed to run virsh"
    if output.success
        then with_context (lift (parse_xml_dom h.unescape (h.read_events output.stdout)))
            "Failed to parse XML"
        else fail (format ("virsh command failed: " ∷ output.stderr ∷ []))

  module _ (connect_uri : Option String) where
    unfoldable pub list_all_domains : Exec W (List String)
    unfolding drop_blank
    list_all_domains = do
      output ←
          with_context (virsh h connect_uri ("list" ∷ "--all" ∷ "--name" ∷ []))
            "Failed to run virsh list"
      if output.success
          then pure (drop_blank (lines output.stdout))
          else fail (format ("Failed to list domains: " ∷ output.stderr ∷ []))

    unfoldable pub get_domain_state : String → Exec W String
    get_domain_state domain_name = do
      output ←
          with_context (virsh h connect_uri ("domstate" ∷ domain_name ∷ []))
            (format ("Failed to get state for domain '" ∷ domain_name ∷ "'" ∷ []))
      if output.success
          then pure (trim output.stdout)
          else fail (
              format
                ("Failed to get domain state for '" ∷ domain_name ∷ "': " ∷ output.stderr ∷ []))

    unfoldable pub get_domain_xml : String → Exec W XmlNode
    unfolding run_virsh_xml
    get_domain_xml domain_name =
        with_context (run_virsh_xml connect_uri ("dumpxml" ∷ domain_name ∷ []))
          (format ("Failed to get XML for domain '" ∷ domain_name ∷ "'" ∷ []))

    -- with `extract_podman_bootc_metadata`, whose record only this function takes apart
    unfoldable pub get_domain_info_from_xml : String → XmlNode → Exec W PodmanBootcDomain
    unfolding get_domain_state extract_disk_path extract_labels extract_ssh_private_key
    get_domain_info_from_xml domain_name dom = do
      state ← get_domain_state domain_name
      let ssh_private_key = extract_ssh_private_key dom
      pure (record {
        name = domain_name;
        state = state;
        image = text_of (or_else (find "bootc:source-image" dom) (find "source-image" dom));
        memory_mb = elim (find "memory" dom) [ none ↦ none | some n ↦ parse_memory_mb n ];
        vcpus = parsed 32 (find "vcpu" dom);
        disk_path = extract_disk_path dom;
        labels = extract_labels dom;
        ssh_port = parsed 16 (find_with_namespace "ssh-port" dom);
        has_ssh_key = is_some ssh_private_key;
        ssh_private_key = ssh_private_key;
      })

    unfoldable pub get_domain_info : String → Exec W PodmanBootcDomain
    unfolding get_domain_xml get_domain_info_from_xml
    get_domain_info domain_name = do
      dom ← get_domain_xml domain_name
      get_domain_info_from_xml domain_name dom

    -- a domain that cannot be read is left out, with a warning
    listed : Result PodmanBootcDomain → List PodmanBootcDomain → List PodmanBootcDomain
    listed (ok info) rest = info ∷ rest
    listed (err _) rest = rest

    info_if_bootc : String → Result XmlNode → Exec W (List PodmanBootcDomain)
    unfolding listed
    info_if_bootc domain_name (err _) = pure []
    info_if_bootc domain_name (ok dom) =
        if is_podman_bootc_domain dom
        then (do info ← attempt (get_domain_info_from_xml domain_name dom); pure (listed info []))
        else pure []

    list_from : List String → Exec W (List PodmanBootcDomain)
    unfolding info_if_bootc
    list_from [] = pure []
    list_from (domain_name ∷ rest) = do
      dom ← attempt (get_domain_xml domain_name)
      here ← info_if_bootc domain_name dom
      more ← list_from rest
      pure (here ++ more)

    unfoldable pub list_bootc_domains : Exec W (List PodmanBootcDomain)
    unfolding list_all_domains list_from
    list_bootc_domains = do all_domains ← list_all_domains; list_from all_domains

    running_only : List PodmanBootcDomain → List PodmanBootcDomain
    running_only [] = []
    running_only (d ∷ rest) = if is_running d then d ∷ running_only rest else running_only rest

    unfoldable pub list_running_bootc_domains : Exec W (List PodmanBootcDomain)
    unfolding list_bootc_domains running_only
    list_running_bootc_domains = do
      all_domains ← list_bootc_domains
      pure (running_only all_domains)
