-- ===== src/DomainList/Listing.antt =====
-- The functions of crates/kit/src/domain_list.rs only ask libvirt.
use bcvk.Common.{String, List, [], ◌∷◌, Option}
use bcvk.Result.{Result, ok, err}
use bcvk.Host.{Host, Action}
use bcvk.Host.Exec.{Keeps, Keeps-bind, Keeps-pure, virsh, keeps_rules, Logged, Logged-virsh}
use bcvk.Domain.{IsQuery}
use bcvk.Xml.{XmlNode}
use bcvk.DomainList.{
  get_domain_state, get_domain_info, get_domain_info_from_xml, get_domain_xml, run_virsh_xml,
  list_all_domains, list_bootc_domains, list_from, info_if_bootc,
}

module _ {W : Type 0} (h : Host W) (uri : Option String) where
  pub virsh-queries :
      (args : List String) → IsQuery (Action.virsh args) → Keeps (Logged IsQuery) (virsh h uri args)
  virsh-queries args q = Logged-virsh h uri args q

  pub get_domain_state-queries : (n : String) → Keeps (Logged IsQuery) (get_domain_state h uri n)
  unfolding get_domain_state
  get_domain_state-queries n = search (keeps_rules, virsh-queries)

  dumpxml-queries : (n : String) → Keeps (Logged IsQuery) (run_virsh_xml h uri ("dumpxml" ∷ n ∷ []))
  unfolding run_virsh_xml
  dumpxml-queries n = search (keeps_rules, virsh-queries)

  get_domain_xml-queries : (n : String) → Keeps (Logged IsQuery) (get_domain_xml h uri n)
  unfolding get_domain_xml
  get_domain_xml-queries n = search (keeps_rules, dumpxml-queries)

  info_from_xml-queries :
      (n : String) (dom : XmlNode) → Keeps (Logged IsQuery) (get_domain_info_from_xml h uri n dom)
  unfolding get_domain_info_from_xml
  info_from_xml-queries n dom = search (keeps_rules, get_domain_state-queries)

  pub get_domain_info-queries : (n : String) → Keeps (Logged IsQuery) (get_domain_info h uri n)
  unfolding get_domain_info
  get_domain_info-queries n = search (keeps_rules, get_domain_xml-queries, info_from_xml-queries)

  list_all-queries : Keeps (Logged IsQuery) (list_all_domains h uri)
  unfolding list_all_domains
  list_all-queries = search (keeps_rules, virsh-queries)

  info_if_bootc-queries :
      (n : String) (r : Result XmlNode) → Keeps (Logged IsQuery) (info_if_bootc h uri n r)
  unfolding info_if_bootc
  info_if_bootc-queries n (err e) = search keeps_rules
  info_if_bootc-queries n (ok dom) = search (keeps_rules, info_from_xml-queries)

  list_from-queries : (ns : List String) → Keeps (Logged IsQuery) (list_from h uri ns)
  unfolding list_from
  list_from-queries [] = search keeps_rules
  list_from-queries (n ∷ ns) = Keeps-bind _ _ (search (keeps_rules, get_domain_xml-queries)) λ r.
      Keeps-bind _ _ (info_if_bootc-queries n r)
        λ here. Keeps-bind _ _ (list_from-queries ns) λ more. Keeps-pure _

  pub list_bootc_domains-queries : Keeps (Logged IsQuery) (list_bootc_domains h uri)
  unfolding list_bootc_domains
  list_bootc_domains-queries = search (keeps_rules, list_all-queries, list_from-queries)
