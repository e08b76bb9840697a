-- ===== src/Mux.antt =====
-- whttp/mux.go and the route list of whttp/router.go: middlewares, the routes that are waiting to be
-- built, and `Serve`. A handler is of any type `H`; `strings.ToLower` and `strings.ToUpper` are
-- parameters.
pub mod Chain
pub mod Abandon
pub mod Serving
mod Tests
use wgo.Common.{
  map, ℕ, Bool, true, false, not, ◌||◌, Option, none, some, List, [], ◌∷◌, ◌++◌, Bytes, bytes,
  bytes_eq, if◌then◌else◌,
}
use wgo.Router.Node.{info}
use wgo.Router.Insert.{Router, add}
use wgo.Router.Find.{found, missing, panicked, find}

pub record Middleware (H : Type 0) : Type 0 where
  pub tag : Bytes
  pub func : H → H

-- A route of the list `routes`, before it is built.
pub record MuxRoute (H O : Type 0) : Type 0 where
  pub method : Bytes
  pub path : Bytes
  pub handler : H
  pub middleware : List (Middleware H)
  pub opts : Option (List (Bytes × O))

-- The fields of `Mux` that its operations change, with the router's `routes` and its tree.
pub record Mux (H O : Type 0) : Type 0 where
  pub middleware : List (Middleware H)
  pub not_found_handler : H
  pub routes : List (MuxRoute H O)
  pub router : Router H (List (Bytes × O))

unfoldable pub in_slice_ignorecase : (Bytes → Bytes) → Bytes → List Bytes → Bool
in_slice_ignorecase lower v [] = false
in_slice_ignorecase lower v (vv ∷ sl) =
    if bytes_eq (lower vv) (lower v) then true else in_slice_ignorecase lower v sl

module _ {H : Type 0} where
  -- `for i := len(ms) - 1; i >= 0; i--`: `ms` is the slice read from its end.
  unfoldable pub chain_from : (Bytes → Bytes) → List (Middleware H) → List Bytes → H → H
  chain_from lower [] aum h = h
  chain_from lower (m ∷ ms) aum h = elim (in_slice_ignorecase lower m.tag aum) [
    | true ↦ chain_from lower ms aum h
    | false ↦ chain_from lower ms (aum ++ m.tag ∷ []) (m.func h)
  ]

  unfoldable pub from_end : List (Middleware H) → List (Middleware H)
  from_end [] = []
  from_end (m ∷ ms) = from_end ms ++ m ∷ []

  unfoldable pub chain : (Bytes → Bytes) → List (Middleware H) → H → H
  chain lower ms h = chain_from lower (from_end ms) [] h

  unfoldable pub abandoned : Bytes → List (Middleware H) → Bool
  abandoned tag [] = false
  abandoned tag (m2 ∷ ms) = if bytes_eq tag m2.tag then true else abandoned tag ms

  -- The loops of `abandon`, for a route and for the mux.
  unfoldable pub abandon : List (Middleware H) → List (Middleware H) → List (Middleware H)
  abandon [] ms = []
  abandon (m1 ∷ rest) ms = if abandoned m1.tag ms then abandon rest ms else m1 ∷ abandon rest ms

unfoldable pub set_option : {O : Type 0} → List (Bytes × O) → Bytes → O → List (Bytes × O)
set_option [] key value = (key, value) ∷ []
set_option ((k, v) ∷ rest) key value =
    if bytes_eq k key then (key, value) ∷ rest else (k, v) ∷ set_option rest key value

module _ {H O : Type 0} where
  -- `SetOptions` of a route, which makes the map when there is none.
  unfoldable pub set_options : MuxRoute H O → Bytes → O → MuxRoute H O
  set_options r key value = record r {
    opts = some (set_option (elim r.opts [ none ↦ [] | some m ↦ m ]) key value);
  }

  unfoldable pub route_use : MuxRoute H O → List (Middleware H) → MuxRoute H O
  route_use r ms = record r { middleware = r.middleware ++ ms }

  unfoldable pub route_abandon : MuxRoute H O → List (Middleware H) → MuxRoute H O
  route_abandon r ms = record r { middleware = abandon r.middleware ms }

  -- `Exists`: the method and the path are compared as one text.
  unfoldable pub exists : List (MuxRoute H O) → Bytes → Bytes → Bool
  exists [] method path = false
  exists (rt ∷ rs) method path =
      if bytes_eq (rt.method ++ rt.path) (method ++ path) then true else exists rs method path

  unfoldable pub routes_use : List (MuxRoute H O) → List (Middleware H) → List (MuxRoute H O)
  routes_use rs ms = map (λ r. route_use r ms) rs

  unfoldable pub routes_abandon : List (MuxRoute H O) → List (Middleware H) → List (MuxRoute H O)
  routes_abandon rs ms = map (λ r. route_abandon r ms) rs

  unfoldable pub routes_set_options : List (MuxRoute H O) → Bytes → O → List (MuxRoute H O)
  routes_set_options rs key value = map (λ r. set_options r key value) rs

  unfoldable pub mux_not_found : Mux H O → H → Mux H O
  mux_not_found m h = record m { not_found_handler = h }

  unfoldable pub mux_use : Mux H O → List (Middleware H) → Mux H O
  mux_use m ms = record m { middleware = m.middleware ++ ms }

  unfoldable pub mux_abandon : Mux H O → List (Middleware H) → Mux H O
  mux_abandon m ms = record m { middleware = abandon m.middleware ms }

  -- `Mux.Add`: a route with the mux's and its own middlewares.
  unfoldable pub mux_add : Mux H O → Bytes → Bytes → H → List (Middleware H) → Mux H O
  mux_add m method path handler ms =
      let wms : List (Middleware H) = elim m.middleware [ [] ↦ [] | x ∷ xs ↦ (x ∷ xs) ++ ms ] in
      record m {
        routes =
            m.routes
            ++ record {
              method = method;
              path = path;
              handler = handler;
              middleware = wms;
              opts = none;
            }
              ∷ [];
      }

  -- The loop of `BuildRoutes` over the routes; `none` is a panic of `Add`.
  unfoldable pub build_all :
      (Bytes → Bytes)
      → Router H (List (Bytes × O))
      → List (MuxRoute H O)
      → Option (Router H (List (Bytes × O)))
  build_all lower r [] = some r
  build_all lower r (rt ∷ rs) =
      elim (add r rt.method rt.path rt.opts (some (chain lower rt.middleware rt.handler))) [
        | none ↦ none
        | some r' ↦ build_all lower r' rs
      ]

  -- `proxy` is `Proxy()`, the wrapper of the handler for what is not found.
  unfoldable pub build_routes : (Bytes → Bytes) → (H → H) → Mux H O → Option (Mux H O)
  build_routes lower proxy m = elim (build_all lower m.router m.routes) [
    | none ↦ none
    | some r ↦ some (record m {
      router = r;
      not_found_handler = chain lower m.middleware (proxy m.not_found_handler);
    })
  ]

-- The part of a request that `Serve` reads: its method, the query parameter that may replace it,
-- and its path.
pub record Request : Type 0 where
  pub method : Bytes
  pub query_method : Bytes
  pub url_path : Bytes

-- What `Serve` sets on the context, and the handler that it runs.
pub record Dispatch (H O : Type 0) : Type 0 where
  pub handler : H
  pub method : Bytes
  pub path : Option Bytes
  pub names : List Bytes
  pub options : Option O
  pub pvalues : List Bytes

-- The method by which the route is looked up.
unfoldable pub served_method : (Bytes → Bytes) → Request → Bytes
served_method upper req =
    if bytes_eq req.method (bytes "POST")
    then (let pm = upper req.query_method in
        if bytes_eq pm (bytes "PATCH")
          || bytes_eq pm (bytes "DELETE")
          || bytes_eq pm (bytes "OPTIONS")
          || bytes_eq pm (bytes "TRACE")
          || bytes_eq pm (bytes "PUT")
        then pm
        else req.method)
    else req.method

module _ {H O : Type 0} where
  -- `none` when `Find` has not ended on the fuel, `some none` when it panics.
  unfoldable pub serve :
      (Bytes → Bytes)
      → ℕ
      → Mux H O
      → Request
      → List Bytes
      → Option (Option (Dispatch H (List (Bytes × O))))
  serve upper fuel m req pvalues =
      let method = served_method upper req in
      elim (find fuel m.router method req.url_path pvalues) [
        | none ↦ none
        | some panicked ↦ some none
        | some missing ↦ some (
            some (record {
              handler = m.not_found_handler;
              method = method;
              path = none;
              names = [];
              options = none;
              pvalues = pvalues;
            }))
        | some (found c f o pv) ↦ some (
            some (record {
              handler = elim f [ none ↦ m.not_found_handler | some h ↦ h ];
              method = method;
              path = some (info c).ppath;
              names = (info c).pnames;
              options = o;
              pvalues = pv;
            }))
      ]
