-- ===== src/Mux/Tests.antt =====
-- whttp/mux.go: the theorems at concrete muxes.
use wgo.Common.{ℕ, ◌≡◌, refl, none, some, List, [], ◌∷◌, map, Bytes, bytes, bytes_eq, arith, All}
use wgo.Router.Methods.{get, verb_of}
use wgo.Router.Insert.{new_router}
use wgo.Router.Static.Routes.{last_route, IsPlainRoute}
use wgo.Mux.{
  Middleware, MuxRoute, Mux, in_slice_ignorecase, chain_from, from_end, chain, abandoned, abandon,
  mux_use, mux_abandon, mux_add, build_routes, Request, served_method, serve,
}
use wgo.Mux.Chain.{wrap, last_of_tag, repeated, chain-wrap}
use wgo.Mux.Serving.{built, handler_run, or_else, serve-build_routes}

program : Unit {0}
unfolding in_slice_ignorecase chain_from from_end chain abandoned abandon mux_use mux_abandon
    mux_add served_method verb_of bytes_eq wrap last_of_tag repeated
program = tt

-- Handlers that say which middlewares a request has passed.
abbrev mark : ℕ → Middleware (List ℕ)
mark n = record { tag = n ∷ []; func = λ h. n ∷ h }

abbrev same_case : Bytes → Bytes
same_case b = b

chain_twice : chain same_case (mark 1 ∷ mark 2 ∷ mark 1 ∷ []) (9 ∷ []) ≡ 2 ∷ 1 ∷ 9 ∷ []
unfolding program
chain_twice = refl

chain-wrap_example :
    chain same_case (mark 1 ∷ mark 2 ∷ mark 1 ∷ []) (9 ∷ [])
    ≡ wrap (last_of_tag same_case (mark 1 ∷ mark 2 ∷ mark 1 ∷ [])) (9 ∷ [])
chain-wrap_example = chain-wrap same_case (mark 1 ∷ mark 2 ∷ mark 1 ∷ []) (9 ∷ [])

abbrev user_route : MuxRoute (List ℕ) ℕ
user_route = record {
  method = bytes "GET";
  path = bytes "/u";
  handler = 9 ∷ [];
  middleware = mark 1 ∷ [];
  opts = none;
}

abbrev small_mux : Mux (List ℕ) ℕ
small_mux = record {
  middleware = mark 2 ∷ [];
  not_found_handler = 4 ∷ [];
  routes = user_route ∷ [];
  router = new_router;
}

abbrev request : Request
request = record { method = bytes "GET"; query_method = []; url_path = bytes "/u" }

get_known : verb_of (bytes "GET") ≡ some get
unfolding program
get_known = refl

served_known : verb_of (served_method same_case request) ≡ some get
unfolding program
served_known = refl

plain_routes : All IsPlainRoute (map (built same_case) small_mux.routes)
plain_routes =
    (((get, get_known), cc, ((omega arith, omega arith), ((omega arith, omega arith), tt))), tt)

abbrev as_it_is : List ℕ → List ℕ
as_it_is h = h

serve-build_routes_example :
    (m' : Mux (List ℕ) ℕ) × (build_routes same_case as_it_is small_mux ≡ some m')
    × (handler_run (serve same_case 9 m' request [])
        ≡ some (
            or_else
              (last_route
                (map (built same_case) small_mux.routes)
                (served_method same_case request)
                (bytes "/u")
                none)
              (chain same_case small_mux.middleware (as_it_is small_mux.not_found_handler))))
serve-build_routes_example =
    serve-build_routes same_case same_case as_it_is small_mux 9 request get b'/' (bytes "u") [] refl
      plain_routes served_known refl (omega arith)

abbrev bare_mux : Mux (List ℕ) ℕ
bare_mux = record { middleware = []; not_found_handler = 4 ∷ []; routes = []; router = new_router }
