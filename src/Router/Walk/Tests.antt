-- ===== src/Router/Walk/Tests.antt =====
-- A tree with a parameter for the tests, and the theorem on walks at it.
use wgo.Common.{ℕ, ◌≡◌, refl, none, some, [], ◌∷◌, bytes, bytes_eq}
use wgo.Router.Methods.{new_table, verb_of, set_verb, get_verb}
use wgo.Router.Node.{
  pkind, skind, node, cons, nil, RouteNode, lcp, find_child, find_child_by_kind, kind_eq,
  find_handler, find_options,
}
use wgo.Router.Insert.{Router}
use wgo.Router.Find.{
  found, find, find_from, step, step_top, step_child, step_param, finish, segment, after_segment,
}
use wgo.Router.Walk.Sound.{Right, find-Right}

abbrev id_node : RouteNode ℕ ℕ
id_node =
    node
      (record {
        kind = pkind;
        label = b':';
        prefix = b':' ∷ [];
        ppath = bytes "/u/:id";
        pnames = bytes "id" ∷ [];
        method_handler = record (new_table {A = ℕ}) { get_field = some 7 };
        method_options = new_table;
      })
      nil

abbrev users : Router ℕ ℕ
users = record {
  tree =
      node
        (record {
          kind = skind;
          label = b'/';
          prefix = bytes "/u/";
          ppath = [];
          pnames = [];
          method_handler = new_table;
          method_options = new_table;
        })
        (cons id_node nil);
  depth = 1;
}

found_id :
    find 9 users (bytes "GET") (bytes "/u/42") ([] ∷ [])
    ≡ some (found id_node (some 7) none (bytes "42" ∷ []))
unfolding verb_of set_verb get_verb bytes_eq lcp find_child find_child_by_kind kind_eq find_handler
    find_options find find_from step step_top step_child step_param finish segment after_segment
found_id = refl

find-Right_example :
    Right users.tree (bytes "/u/42") (bytes "GET") (found id_node (some 7) none (bytes "42" ∷ []))
find-Right_example =
    find-Right 9 users (bytes "GET") (bytes "/u/42") ([] ∷ []) id_node (some 7) none
      (bytes "42" ∷ []) found_id
