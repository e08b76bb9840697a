-- ===== src/Mux/Serving.antt =====
-- whttp/mux.go: what `Serve` runs, from the list of routes to the handler.
use wgo.Common.{
  ℕ, ◌+◌, ◌≡◌, refl, ap, ◌∙◌, ◌≤◌, Option, none, some, List, [], ◌∷◌, map, Bytes, length, arith,
  All, Option-cases, inl, inr,
}
use wgo.Router.Methods.{Verb, verb_of}
use wgo.Router.Insert.{Router, new_router, add}
use wgo.Router.Find.{Outcome, found, missing, panicked, find}
use wgo.Router.Static.Serve.{Route}
use wgo.Router.Static.Routes.{add_routes, last_route, IsPlainRoute, served, find-routes}
use wgo.Mux.{
  Middleware, MuxRoute, Mux, chain, build_all, build_routes, Request, Dispatch, served_method,
  serve, mux_add,
}

-- Every method that the router knows is looked up as one that it knows.
pub served_method-known :
    (upper : Bytes → Bytes) (req : Request) (v : Verb)
    → verb_of req.method ≡ some v
    → (w : Verb) × (verb_of (served_method upper req) ≡ some w)
unfolding served_method verb_of
served_method-known upper req v known = elim (Option-cases (verb_of (served_method upper req))) [
  | inr known' ↦ known'
  | inl unknown ↦ absurd (ground (arith, known, unknown))
]

abbrev pub or_else : {H : Type 0} → Option H → H → H
or_else none h = h
or_else (some f) h = f

module _ {H O : Type 0} where
  -- The call of `Add` for a route of the list.
  abbrev pub built : (Bytes → Bytes) → MuxRoute H O → Route H (List (Bytes × O))
  built lower rt = record {
    method = rt.method;
    path = rt.path;
    opts = rt.opts;
    handler = chain lower rt.middleware rt.handler;
  }

  build_all-add_routes :
      (lower : Bytes → Bytes) (r : Router H (List (Bytes × O))) (rs : List (MuxRoute H O))
      → build_all lower r rs ≡ add_routes r (map (built lower) rs)
  unfolding build_all add_routes
  build_all-add_routes lower r [] = refl
  build_all-add_routes lower r (rt ∷ rs) =
      elim (Option-cases
        (add r rt.method rt.path rt.opts (some (chain lower rt.middleware rt.handler)))) [
          | inl e ↦ ground (arith, e)
          | inr (r', e) ↦ ground (arith, e, build_all-add_routes lower r' rs)
        ]

  -- The handler of a finished run of `Serve`.
  abbrev pub handler_run : Option (Option (Dispatch H (List (Bytes × O)))) → Option H
  handler_run (some (some d)) = some d.handler
  handler_run _ = none

  serve-served :
      (upper : Bytes → Bytes) (fuel : ℕ) (m : Mux H O) (req : Request) (pv : List Bytes)
      (f : Option H)
      → served (find fuel m.router (served_method upper req) req.url_path pv) ≡ some f
      → handler_run (serve upper fuel m req pv) ≡ some (or_else f m.not_found_handler)
  unfolding serve
  serve-served upper fuel m req pv f e =
      go (find fuel m.router (served_method upper req) req.url_path pv) refl e
    where
      go :
          (x : Option (Outcome H (List (Bytes × O))))
          → find fuel m.router (served_method upper req) req.url_path pv ≡ x
          → served x ≡ some f
          → handler_run (serve upper fuel m req pv) ≡ some (or_else f m.not_found_handler)
      go none e1 e2 = cc
      go (some panicked) e1 e2 = cc
      go (some missing) e1 e2 = ground (arith, e1, e2)
      go (some (found c none o pv')) e1 e2 = ground (arith, e1, e2)
      go (some (found c (some h) o pv')) e1 e2 = ground (arith, e1, e2)

  build_routes-some :
      (lower : Bytes → Bytes) (proxy : H → H) (m : Mux H O) (r : Router H (List (Bytes × O)))
      → build_all lower m.router m.routes ≡ some r
      → build_routes lower proxy m
        ≡ some (record m {
          router = r;
          not_found_handler = chain lower m.middleware (proxy m.not_found_handler);
        })
  unfolding build_routes
  build_routes-some lower proxy m r e = ground (arith, e)

  -- On a new mux whose routes have known methods and static paths, `BuildRoutes` ends without a
  -- panic. Then `Serve` ends for every request with a known method and a non-empty path, within as
  -- many steps of `Find` as the path has bytes and six more: it runs the last route with that
  -- method and path in its chain of middlewares, and the not-found handler in the mux's chain if
  -- there is no such route.
  pub serve-build_routes :
      (lower upper : Bytes → Bytes) (proxy : H → H) (m : Mux H O) (fuel : ℕ) (req : Request)
      (w : Verb) (b : ℕ) (bs : Bytes) (pv : List Bytes)
      → m.router ≡ new_router
      → All IsPlainRoute (map (built lower) m.routes)
      → verb_of (served_method upper req) ≡ some w
      → req.url_path ≡ b ∷ bs
      → length bs + 7 ≤ fuel
      → (m' : Mux H O) × (build_routes lower proxy m ≡ some m')
        × (handler_run (serve upper fuel m' req pv)
            ≡ some (
                or_else
                  (last_route (map (built lower) m.routes) (served_method upper req) (b ∷ bs) none)
                  (chain lower m.middleware (proxy m.not_found_handler))))
  serve-build_routes lower upper proxy m fuel req w b bs pv fresh plain known path room =
      let method = served_method upper req in
      let rs = map (built lower) m.routes in
      let (r, added, answer) = find-routes rs fuel method w b bs pv plain known room in
      let all : build_all lower m.router m.routes ≡ some r =
        ap (λ x. build_all lower x m.routes) fresh
        ∙ build_all-add_routes lower new_router m.routes
        ∙ added in
      let run : served (find fuel r method req.url_path pv)
          ≡ some (last_route rs method (b ∷ bs) none) =
        ap (λ p. served (find fuel r method p pv)) path ∙ answer in
      (_, build_routes-some lower proxy m r all, serve-served upper fuel _ req pv _ run)

  -- `Add` on a mux without middlewares drops the middlewares of the route: whatever they are, the
  -- mux is as after an `Add` without any.
  pub mux_add-no_global :
      (m : Mux H O) (method path : Bytes) (h : H) (ms : List (Middleware H))
      → m.middleware ≡ []
      → mux_add m method path h ms ≡ mux_add m method path h []
  unfolding mux_add
  mux_add-no_global m method path h ms e = rw e refl
