-- ===== src/Xml/Feed.antt =====
-- The parser of crates/kit/src/xml_utils.rs over a run of events that holds no error.
use bcvk.Common.{String, List, [], ◌∷◌, ◌++◌, map, Option, ◌≡◌, refl, ap}
use bcvk.Result.{ok}
use bcvk.Xml.{XmlNode, Children, nil, cons, push_child, Event, Parser, on_event, parse_from}

unfoldable pub join_children : Children → Children → Children
join_children nil cs = cs
join_children (cons d ds) cs = cons d (join_children ds cs)

pub join-push_child :
    (ds : Children) (c : XmlNode) (cs : Children)
    → join_children (push_child c ds) cs ≡ join_children ds (cons c cs)
unfolding join_children push_child
join-push_child nil c cs = refl
join-push_child (cons d ds) c cs = ap (cons d) (join-push_child ds c cs)

pub join-nil : (ds : Children) → join_children ds nil ≡ ds
unfolding join_children
join-nil nil = refl
join-nil (cons d ds) = ap (cons d) (join-nil ds)

abbrev pub parser : List XmlNode → Option XmlNode → Parser
parser stack root = record { stack = stack; root = root }

module _ (unescape : String → Option String) where
  -- the parser after a run of events
  unfoldable pub feed : Parser → List Event → Parser
  feed p [] = p
  feed p (e ∷ es) = feed (on_event unescape e p) es

  pub feed-append : (p : Parser) (xs ys : List Event) → feed p (xs ++ ys) ≡ feed (feed p xs) ys
  unfolding feed
  feed-append p [] ys = refl
  feed-append p (x ∷ xs) ys = feed-append (on_event unescape x p) xs ys

  pub parse_from-feed :
      (p : Parser) (es : List Event) → parse_from unescape p (map ok es) ≡ ok (feed p es)
  unfolding parse_from feed
  parse_from-feed p [] = refl
  parse_from-feed p (e ∷ es) = parse_from-feed (on_event unescape e p) es
