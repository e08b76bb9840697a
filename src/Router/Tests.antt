-- ===== src/Router/Tests.antt =====
-- whttp/router.go: runs of `Add` and `Find`, and the theorems at concrete trees.
use wgo.Common.{
  ◌≤◌, All, ◌≢◌, arith, ℕ, ◌≡◌, refl, Option, none, some, List, [], ◌∷◌, Bytes, bytes, bytes_eq,
}
use wgo.Router.Methods.{new_table, get, verb_of, set_verb, get_verb}
use wgo.Router.Node.{
  pkind, node, NodeInfo, cons, nil, info, skind, RouteNode, lcp, new_node, add_child, find_child,
  find_child_by_kind, kind_eq, add_handler, add_options, find_handler, find_options,
}
use wgo.Router.Insert.{
  Call, Router, new_router, insert_node, insert_all, insert, calls_from, add, register, leaf,
  at_root, split_node, at_node,
}
use wgo.Router.Find.{
  go, param, find, find_from, step, step_top, step_child, step_param, step_any, resume, finish,
  store_last, segment, after_segment, found, missing, panicked,
}
use wgo.Router.Spin.{waiting, find_from-waiting}
use wgo.Router.Depth.{depth_of, depth-new_router}
use wgo.Router.Static.{locate, outcome, IsStatic}
use wgo.Router.Static.Serve.{Route}
use wgo.Router.Static.Routes.{add_routes, last_route, IsPlainRoute, served, find-routes}
use wgo.Router.Static.Shape.{IsLabelled}
use wgo.Router.Static.Keep.{NoColon, leaf-IsStatic}
use wgo.Router.Static.Settle.{find-static}

program : Unit {0}
unfolding verb_of set_verb get_verb bytes_eq lcp new_node add_child find_child find_child_by_kind
    kind_eq add_handler add_options find_handler find_options new_router insert_node insert_all
    insert calls_from add register leaf at_root split_node at_node find find_from step step_top
    step_child step_param step_any resume finish store_last segment after_segment
program = tt

-- Routes for GET, each with a number for its handler.
abbrev add_gets : Option (Router ℕ ℕ) → List (Bytes × ℕ) → Option (Router ℕ ℕ)
add_gets none rs = none
add_gets (some r) [] = some r
add_gets (some r) ((p, h) ∷ rs) = add_gets (add r (bytes "GET") p none (some h)) rs

abbrev serve : Option (Router ℕ ℕ) → Bytes → List Bytes → Option (Option ℕ × List Bytes)
serve none path pv = none
serve (some r) path pv = elim (find 60 r (bytes "GET") path pv) [
  | none ↦ none
  | some (found c f o pv') ↦ some (f, pv')
  | some missing ↦ some (none, bytes "missing" ∷ [])
  | some panicked ↦ some (none, bytes "panic" ∷ [])
]

abbrev routes : List (Bytes × ℕ)
routes =
    (bytes "/", 0)
    ∷ (bytes "/users", 1)
    ∷ (bytes "/users/:id", 2)
    ∷ (bytes "/user", 3)
    ∷ (bytes "/static/*", 4)
    ∷ (bytes "/users/new", 5)
    ∷ []

serve_static :
    serve (add_gets (some new_router) routes) (bytes "/users") ([] ∷ []) ≡ some (some 1, [] ∷ [])
unfolding program
serve_static = refl

serve_param :
    serve (add_gets (some new_router) routes) (bytes "/users/42") ([] ∷ [])
    ≡ some (some 2, bytes "42" ∷ [])
unfolding program
serve_param = refl

serve_any :
    serve (add_gets (some new_router) routes) (bytes "/static/a/b") ([] ∷ [])
    ≡ some (some 4, bytes "a/b" ∷ [])
unfolding program
serve_any = refl

serve-none :
    serve (add_gets (some new_router) routes) (bytes "/nothing") ([] ∷ [])
    ≡ some (none, bytes "missing" ∷ [])
unfolding program
serve-none = refl

abbrev two_params : List (Bytes × ℕ)
two_params = (bytes "/a/:x/:y", 1) ∷ (bytes "/a/:x/bd", 2) ∷ []

serve_two :
    serve (add_gets (some new_router) two_params) (bytes "/a/1/2") ([] ∷ [])
    ≡ some (none, bytes "missing" ∷ [])
unfolding program
serve_two = refl

serve_spin : serve (add_gets (some new_router) two_params) (bytes "/a/1/bc") ([] ∷ []) ≡ none
unfolding program
serve_spin = refl

-- Two static routes for GET.
abbrev home_route : Route ℕ ℕ
home_route = record { method = bytes "GET"; path = bytes "/"; opts = none; handler = 1 }

abbrev user_route : Route ℕ ℕ
user_route = record { method = bytes "GET"; path = bytes "/u"; opts = none; handler = 2 }

get_known : verb_of (bytes "GET") ≡ some get
unfolding program
get_known = refl

plain_routes : All IsPlainRoute (home_route ∷ user_route ∷ [])
plain_routes = (
  ((get, get_known), cc, ((omega arith, omega arith), tt)),
  (((get, get_known), cc, ((omega arith, omega arith), ((omega arith, omega arith), tt))), tt),
)

find-routes_example :
    (r : Router ℕ ℕ) × (add_routes new_router (home_route ∷ user_route ∷ []) ≡ some r)
    × (served (find 10 r (bytes "GET") (bytes "/u") [])
        ≡ some (last_route (home_route ∷ user_route ∷ []) (bytes "GET") (bytes "/u") none))
find-routes_example =
    find-routes (home_route ∷ user_route ∷ []) 10 (bytes "GET") get b'/' (bytes "u") [] plain_routes
      get_known (omega arith)

last_route_user : last_route (home_route ∷ user_route ∷ []) (bytes "GET") (bytes "/u") none ≡ some 2
unfolding program last_route
last_route_user = refl

-- The call of `insert` for a static route.
abbrev call_at : Bytes → ℕ → Call ℕ ℕ
call_at path h = record {
  method = bytes "GET";
  path = path;
  opts = none;
  handler = some h;
  kind = skind;
  ppath = path;
  pnames = [];
}

abbrev small_tree : RouteNode ℕ ℕ
small_tree = leaf (call_at (bytes "/u") 2) (bytes "/u")

NoColon-u : NoColon (bytes "/u")
NoColon-u = (omega arith, (omega arith, tt))

NoColon-v : NoColon (bytes "/v")
NoColon-v = (omega arith, (omega arith, tt))

small_tree-IsStatic : IsStatic small_tree × IsLabelled small_tree
small_tree-IsStatic = leaf-IsStatic (call_at (bytes "/u") 2) refl (bytes "/u") NoColon-u cc

small_shared : lcp (bytes "/v") (info small_tree).prefix ≡ 1
unfolding program
small_shared = refl

small_shared_pos : lcp (bytes "/v") (info small_tree).prefix ≢ 0
small_shared_pos = omega (arith, small_shared)

find-static_example :
    find 8 (record { tree = small_tree; depth = 0 }) (bytes "GET") (bytes "/u") []
    ≡ some (outcome (bytes "GET") [] (locate small_tree (bytes "/u")))
find-static_example =
    find-static (bytes "GET") 8 0 small_tree b'/' (bytes "u") [] small_tree-IsStatic.0 (omega arith)

abbrev pair_route : Route ℕ ℕ
pair_route = record { method = bytes "GET"; path = bytes "/a/:x/:y"; opts = none; handler = 1 }

-- The depth of a router with a route of two parameters.
pair_depth : depth_of (add_routes new_router (pair_route ∷ [])) ≡ 1
unfolding program add_routes
pair_depth = refl

depth-new_router_example : depth_of (add_routes new_router (pair_route ∷ [])) ≤ 1
depth-new_router_example = depth-new_router (pair_route ∷ [])

-- The node of the slash between two parameters, and the second parameter's node.
abbrev slash_node : NodeInfo ℕ ℕ
slash_node = record {
  kind = skind;
  label = b'/';
  prefix = b'/' ∷ [];
  ppath = [];
  pnames = [];
  method_handler = new_table;
  method_options = new_table;
}

abbrev second_param : RouteNode ℕ ℕ
second_param =
    node
      (record {
        kind = pkind;
        label = b':';
        prefix = b':' ∷ [];
        ppath = bytes "/a/:x/:y";
        pnames = bytes "x" ∷ bytes "y" ∷ [];
        method_handler = new_table;
        method_options = new_table;
      })
      nil

below_slash : find_child_by_kind (cons second_param nil) pkind ≡ some second_param
unfolding program
below_slash = refl

find_from-waiting_example :
    find_from 100
      (bytes "GET")
      (go param (waiting slash_node (cons second_param nil) b'b' (bytes "c") (bytes "1" ∷ [])))
    ≡ none
find_from-waiting_example =
    find_from-waiting (bytes "GET") slash_node (cons second_param nil) b'b' (bytes "c")
      (bytes "1" ∷ []) second_param 100 refl refl (omega arith) below_slash
