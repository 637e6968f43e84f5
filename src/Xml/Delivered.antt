-- ===== src/Xml/Delivered.antt =====
-- What the reader of crates/kit/src/xml_utils.rs, a library, delivers of a written document: its
-- events, where no text holds a reference (`&`, which the reader delivers as an event of its own)
-- or white space at its ends, and the names are names.
use bcvk.Common.{
  String, Bool, true, false, not, ◌&&◌, Option, none, some, List, [], ◌∷◌, contains, trim, ◌==◌,
  is_empty_text,
}
use bcvk.Xml.{Event}

free_of : List String → String → Bool
free_of [] text = true
free_of (sign ∷ rest) text = not (contains sign text) && free_of rest text

unfoldable pub is_name : String → Bool
unfolding free_of
is_name n =
    not (is_empty_text n)
    && free_of (" " ∷ "/" ∷ "<" ∷ ">" ∷ "=" ∷ "&" ∷ "!" ∷ "?" ∷ "\"" ∷ "'" ∷ []) n

are_attributes : List (Option (String × String)) → Bool
unfolding is_name free_of
are_attributes [] = true
are_attributes (none ∷ rest) = false
are_attributes (some (key, value) ∷ rest) =
    is_name key && free_of ("<" ∷ "\"" ∷ []) value && are_attributes rest

unfoldable pub is_kept : Event → Bool
unfolding is_name are_attributes free_of
is_kept (Event.start n attrs) = is_name n && are_attributes attrs
is_kept (Event.empty n attrs) = is_name n && are_attributes attrs
is_kept (Event.end n) = is_name n
is_kept (Event.text t) = not (is_empty_text t) && trim t == t && free_of ("&" ∷ "<" ∷ []) t
is_kept _ = false

-- The reader delivers these events as they were written.
unfoldable pub all_kept : List Event → Bool
unfolding is_kept
all_kept [] = true
all_kept (e ∷ es) = is_kept e && all_kept es
