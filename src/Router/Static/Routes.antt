-- ===== src/Router/Static/Routes.antt =====
-- whttp/router.go: a router to which only static paths are added serves each request as the list of
-- its routes says.
use wgo.Common.{
  ℕ, ◌+◌, ◌≡◌, ◌≢◌, refl, sym, ap, ◌∙◌, Bool, Option, none, some, List, [], ◌∷◌, Bytes, ◌&&◌,
  if◌then◌else◌, length, arith, inl, inr, ◌≤◌, All, bytes_eq,
}
use mathlib.Core.Path.{subst}
use wgo.Router.Methods.{Verb, verb_of, verb_eq-bytes_eq}
use wgo.Router.Node.{RouteNode}
use wgo.Router.Insert.{Call, Router, new_router, insert, insert_all, insert_node, slashed, add}
use wgo.Router.Find.{Outcome, found, missing, find}
use wgo.Router.Static.{locate, IsStatic, outcome}
use wgo.Router.Static.Settle.{find-static}
use wgo.Router.Static.Insert.{handler_of}
use wgo.Router.Static.Serve.{
  Route, IsPlain, IsPlain-NoColon, Inserted, IsRooted, call_of, calls_from-IsPlain,
  insert_node-IsRooted, empty_none, slashed-ne_nil,
}

module _ {F O : Type 0} where
  -- The calls of `Add`, in order; `none` if one of them panics.
  unfoldable pub add_routes : Router F O → List (Route F O) → Option (Router F O)
  add_routes r [] = some r
  add_routes r (t ∷ ts) = elim (add r t.method t.path t.opts (some t.handler)) [
    | none ↦ none
    | some r' ↦ add_routes r' ts
  ]

  -- The handler of the last route with the method and the path, else `old`.
  unfoldable pub last_route : List (Route F O) → Bytes → Bytes → Option F → Option F
  last_route [] method path old = old
  last_route (t ∷ ts) method path old =
      last_route ts method path
        (if bytes_eq (slashed t.path) path && bytes_eq t.method method then some t.handler else old)

  -- A method that the router knows, and a path without parameters.
  abbrev pub IsPlainRoute : Route F O → Type 0
  IsPlainRoute t =
      ((v : Verb) × (verb_of t.method ≡ some v)) × (t.path ≢ []) × IsPlain (slashed t.path)

  -- The handler that a run of `Find` returns; `none` if it has not ended or panics.
  abbrev pub served : Option (Outcome F O) → Option (Option F)
  served (some (found c f o pv)) = some f
  served (some missing) = some none
  served _ = none

  served-outcome :
      (method : Bytes) (pv : List Bytes) (c : Option (RouteNode F O))
      → served (some (outcome method pv c)) ≡ some (handler_of c method)
  unfolding outcome
  served-outcome method pv none = refl
  served-outcome method pv (some c) = ground arith

  add-call_of :
      (r : Router F O) (t : Route F O)
      → t.path ≢ []
      → IsPlain (slashed t.path)
      → add r t.method t.path t.opts (some t.handler)
        ≡ some
            (insert r (call_of t.method t.opts (some t.handler) (slashed t.path) (slashed t.path)))
  unfolding add insert_all
  add-call_of r t hp plain = go t.path hp plain
    where
      go :
          (p : Bytes)
          → p ≢ []
          → IsPlain (slashed p)
          → add r t.method p t.opts (some t.handler)
            ≡ some (insert r (call_of t.method t.opts (some t.handler) (slashed p) (slashed p)))
      go [] hp plain = absurd (hp refl)
      go (b ∷ bs) hp plain =
          rw
            (calls_from-IsPlain t.method t.opts (some t.handler) (slashed (b ∷ bs)) []
              (slashed (b ∷ bs)) plain)
            refl

  tree-insert :
      (r : Router F O) (call : Call F O) → (insert r call).tree ≡ insert_node call r.tree call.path
  unfolding insert
  tree-insert r call = refl

  -- One `Add` of a static path.
  add-IsRooted :
      (r : Router F O) (t : Route F O)
      → IsRooted r.tree
      → IsPlainRoute t
      → (r' : Router F O) × (add r t.method t.path t.opts (some t.handler) ≡ some r')
        × IsRooted r'.tree
        × ((method path : Bytes) (w : Verb)
            → verb_of method ≡ some w
            → path ≢ []
            → handler_of (locate r'.tree path) method ≡ (
                if bytes_eq (slashed t.path) path && bytes_eq t.method method
                then some t.handler
                else handler_of (locate r.tree path) method))
  add-IsRooted r t rooted ((v, ev), hp, plain) =
      let p = slashed t.path in
      let call = call_of t.method t.opts (some t.handler) p p in
      let at = slashed-ne_nil t.path hp in
      let done : Inserted call t.handler r.tree p =
        insert_node-IsRooted call t.handler r.tree p refl refl (IsPlain-NoColon p plain) at.0 at.1
          rooted in
      (
        insert r call,
        add-call_of r t hp plain,
        subst (λ x. IsRooted x) (sym (tree-insert r call)) done.0,
        λ method path w asked hq.
            ap (λ x. handler_of (locate x path) method) (tree-insert r call)
            ∙ done.1 method v w path ev asked hq
            ∙ ap
                (λ (b : Bool).
                  if bytes_eq p path && b
                  then some t.handler
                  else handler_of (locate r.tree path) method)
                (verb_eq-bytes_eq t.method method v w ev asked),
      )

  served-find :
      (r : Router F O) (fuel : ℕ) (method : Bytes) (b : ℕ) (bs : Bytes) (pv : List Bytes)
      → IsStatic r.tree
      → length bs + 7 ≤ fuel
      → served (find fuel r method (b ∷ bs) pv) ≡ some (handler_of (locate r.tree (b ∷ bs)) method)
  served-find r fuel method b bs pv st room =
      ap served (find-static method fuel r.depth r.tree b bs pv st room)
      ∙ served-outcome method pv (locate r.tree (b ∷ bs))

  IsStatic-root : (t : RouteNode F O) → IsRooted t → IsStatic t
  unfolding IsStatic new_router
  IsStatic-root t (inl e) = subst (λ x. IsStatic x) (sym e) (refl, (omega arith), tt, tt)
  IsStatic-root t (inr (st, lab, root)) = st

  add_routes-cons :
      (r r1 r2 : Router F O) (t : Route F O) (ts : List (Route F O))
      → add r t.method t.path t.opts (some t.handler) ≡ some r1
      → add_routes r1 ts ≡ some r2
      → add_routes r (t ∷ ts) ≡ some r2
  unfolding add_routes
  add_routes-cons r r1 r2 t ts e more = ground arith

  add_routes-IsRooted :
      (r : Router F O) (ts : List (Route F O))
      → IsRooted r.tree
      → All IsPlainRoute ts
      → (r' : Router F O) × (add_routes r ts ≡ some r')
        × IsRooted r'.tree
        × ((method path : Bytes) (w : Verb)
            → verb_of method ≡ some w
            → path ≢ []
            → handler_of (locate r'.tree path) method
              ≡ last_route ts method path (handler_of (locate r.tree path) method))
  unfolding add_routes last_route
  add_routes-IsRooted r [] rooted h = (r, refl, rooted, λ method path w asked hq. refl)
  add_routes-IsRooted r (t ∷ ts) rooted h =
      let (r1, added, rooted1, law1) = add-IsRooted r t rooted h.0 in
      let (r2, more, rooted2, law2) = add_routes-IsRooted r1 ts rooted1 h.1 in
      (
        r2,
        add_routes-cons r r1 r2 t ts added more,
        rooted2,
        λ method path w asked hq.
            law2 method path w asked hq
            ∙ ap (last_route ts method path) (law1 method path w asked hq),
      )

  -- Static routes for known methods can all be added to a new router, and then `Find` ends for every
  -- non-empty path and known method, without a panic, within as many steps as the path has bytes
  -- and six more: it returns the handler of the last route with that method and path, and no
  -- handler if there is none.
  pub find-routes :
      (ts : List (Route F O)) (fuel : ℕ) (method : Bytes) (w : Verb) (b : ℕ) (bs : Bytes)
      (pv : List Bytes)
      → All IsPlainRoute ts
      → verb_of method ≡ some w
      → length bs + 7 ≤ fuel
      → (r : Router F O) × (add_routes new_router ts ≡ some r)
        × (served (find fuel r method (b ∷ bs) pv) ≡ some (last_route ts method (b ∷ bs) none))
  find-routes ts fuel method w b bs pv h asked room =
      let (r, added, rooted, law) = add_routes-IsRooted new_router ts (inl refl) h in
      let filled : b ∷ bs ≢ [] = cc in
      (
        r,
        added,
        served-find r fuel method b bs pv (IsStatic-root r.tree rooted) room
            ∙ ap some (
                law method (b ∷ bs) w asked filled
                ∙ ap (last_route ts method (b ∷ bs)) (empty_none O method (b ∷ bs) filled)),
      )
