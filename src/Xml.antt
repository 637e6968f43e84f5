-- ===== src/Xml.antt =====
-- crates/kit/src/xml_utils.rs: the element tree, its search, and the parser over the events of the
-- XML reader; and `write_xml_node` of crates/kit/src/libvirt_upload_disk.rs, the writer of a tree.
-- The reader and the writer of markup are a library: its events are the data here, and its
-- escaping of text is a parameter.
pub mod Delivered
pub mod Feed
pub mod Find
pub mod RoundTrip
use mathlib.Core.Option
use bcvk.Common.{
  String, List, [], ◌∷◌, ◌++◌, map, Option, none, some, Bool, true, false, ◌&&◌, ◌==◌, format,
  is_empty_text, if◌then◌else◌, or_else, is_empty,
}
use bcvk.Result.{Result, ok, err, ok_or}

abbrev pub Attributes : Type 0
Attributes = List (String × String)

-- `HashMap::insert` and `HashMap::get`; the map lists its keys in the order of their insertion
unfoldable pub insert : String → String → Attributes → Attributes
insert k v [] = (k, v) ∷ []
insert k v ((j, w) ∷ m) = if j == k then (k, v) ∷ m else (j, w) ∷ insert k v m

unfoldable pub get : String → Attributes → Option String
get k [] = none
get k ((j, w) ∷ m) = if j == k then some w else get k m

-- `XmlNode` with its `name`, `attributes`, `text` and `children`
mutual
  pub data XmlNode : Type 0 where
    node : String → Attributes → String → Children → XmlNode

  pub data Children : Type 0 where
    nil : Children
    cons : XmlNode → Children → Children

abbrev pub name : XmlNode → String
name (node n _ _ _) = n

abbrev pub attributes : XmlNode → Attributes
attributes (node _ a _ _) = a

-- `XmlNode::text_content`
abbrev pub text_content : XmlNode → String
text_content (node _ _ t _) = t

-- `XmlNode::find`: the first element of that name, this one or in document order below it
unfoldable mutual
  pub find : String → XmlNode → Option XmlNode
  find element_name (node n a t c) =
      if n == element_name then some (node n a t c) else find_children element_name c

  pub find_children : String → Children → Option XmlNode
  find_children element_name nil = none
  find_children element_name (cons child rest) =
      or_else (find element_name child) (find_children element_name rest)

-- `XmlNode::find_with_namespace`
unfoldable pub find_with_namespace : String → XmlNode → Option XmlNode
find_with_namespace element_name dom =
    or_else (find (format ("bootc:" ∷ element_name ∷ [])) dom) (find element_name dom)

-- `quick_xml::events::Event`: an attribute that does not parse is `none`; `general_ref` is a
-- reference within a text, as `&amp;`; `other` stands for comments, declarations and the rest
pub data Event : Type 0 where
  start empty : String → List (Option (String × String)) → Event
  end : String → Event
  text : String → Event
  general_ref : String → Event
  other : Event

unfoldable pub collect : Attributes → List (Option (String × String)) → Attributes
unfolding insert
collect m [] = m
collect m (none ∷ rest) = collect m rest
collect m (some (k, v) ∷ rest) = collect (insert k v m) rest

unfoldable pub push_child : XmlNode → Children → Children
push_child n nil = cons n nil
push_child n (cons m rest) = cons m (push_child n rest)

abbrev pub add_child : XmlNode → XmlNode → XmlNode
add_child child (node n a t c) = node n a t (push_child child c)

abbrev pub add_text : String → XmlNode → XmlNode
add_text more (node n a t c) = node n a (format (t ∷ more ∷ [])) c

-- the variables of the parser's loop; the stack has its last element at the head
pub record Parser : Type 0 where
  pub stack : List XmlNode
  pub root : Option XmlNode

module _ (unescape : String → Option String) where
  append_text : Option String → List XmlNode → List XmlNode
  append_text none stack = stack
  append_text (some t) [] = []
  append_text (some t) (current ∷ rest) = add_text t current ∷ rest

  push_empty : XmlNode → List XmlNode → Option XmlNode → Parser
  push_empty n [] none = record { stack = []; root = some n }
  push_empty n [] (some r) = record { stack = []; root = some r }
  push_empty n (parent ∷ rest) root = record { stack = add_child n parent ∷ rest; root = root }

  pop_completed : List XmlNode → Option XmlNode → Parser
  pop_completed [] root = record { stack = []; root = root }
  pop_completed (completed ∷ []) root = record { stack = []; root = some completed }
  pop_completed (completed ∷ parent ∷ rest) root = record {
    stack = add_child completed parent ∷ rest;
    root = root;
  }

  unfoldable pub on_event : Event → Parser → Parser
  unfolding append_text push_empty pop_completed collect push_child
  on_event (start n attrs) p = record p { stack = node n (collect [] attrs) "" nil ∷ p.stack }
  on_event (empty n attrs) p = push_empty (node n (collect [] attrs) "" nil) p.stack p.root
  on_event (end n) p = pop_completed p.stack p.root
  on_event (text t) p = record p { stack = append_text (unescape t) p.stack }
  on_event (general_ref _) p = p
  on_event other p = p

  -- the loop over `read_event_into`; the end of the list is `Event::Eof`
  unfoldable pub parse_from : Parser → List (Result Event) → Result Parser
  unfolding on_event
  parse_from p [] = ok p
  parse_from p (ok e ∷ rest) = parse_from (on_event e p) rest
  parse_from p (err e ∷ rest) = err (format ("Failed to parse XML: " ∷ e ∷ []))

  abbrev finish : Result Parser → Result XmlNode
  finish (ok p) = ok_or p.root "No root element found in XML"
  finish (err e) = err e

  unfoldable pub parse_xml_dom : List (Result Event) → Result XmlNode
  unfolding parse_from
  parse_xml_dom events = finish (parse_from (record { stack = []; root = none }) events)

-- `XmlWriter`, by the events that each call writes; `escape` is what the writer does to a text and
-- to an attribute's value.
module _ (escape : String → String) where
  abbrev pub escape_attributes : Attributes → List (Option (String × String))
  escape_attributes = map (λ a. some (a.0, escape a.1))

  unfoldable pub start_element : String → Attributes → List Event
  start_element n attrs = start n (escape_attributes attrs) ∷ []

  unfoldable pub write_empty_element : String → Attributes → List Event
  write_empty_element n attrs = empty n (escape_attributes attrs) ∷ []

  unfoldable pub write_text : String → List Event
  write_text t = if is_empty_text t then [] else text (escape t) ∷ []

  unfoldable pub end_element : String → List Event
  end_element n = end n ∷ []

  unfoldable pub write_text_element : String → String → List Event
  unfolding start_element write_text end_element
  write_text_element n t = start_element n [] ++ (write_text t ++ end_element n)

  unfoldable pub write_text_element_with_attrs : String → String → Attributes → List Event
  unfolding start_element write_text end_element
  write_text_element_with_attrs n t attrs =
      start_element n attrs ++ ((if is_empty_text t then [] else write_text t) ++ end_element n)

  abbrev no_children : Children → Bool
  no_children nil = true
  no_children (cons _ _) = false

  unfoldable mutual
    unfolding start_element write_empty_element write_text end_element write_text_element_with_attrs

    pub write_xml_node : XmlNode → List Event
    write_xml_node (node n a t nil) =
        if is_empty_text t then write_empty_element n a else write_text_element_with_attrs n t a
    write_xml_node (node n a t (cons c cs)) =
        start_element n a ++ (write_text t ++ (write_children (cons c cs) ++ end_element n))

    pub write_children : Children → List Event
    write_children nil = []
    write_children (cons c cs) = write_xml_node c ++ write_children cs
