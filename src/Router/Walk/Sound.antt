-- ===== src/Router/Walk/Sound.antt =====
-- whttp/router.go: what `Find` returns is a node to which the path's text leads.
use mathlib.Core.Path.{subst}
use wgo.Common.{
  ℕ, zero, suc, ◌-◌, ◌≡◌, inl, inr, refl, sym, Bool, true, false, Option, none, some, List, [], ◌∷◌,
  Bytes, ◌==◌, eq_of_==, ltb, if◌then◌else◌, length, drop, Bool-cases, Option-cases,
}
use wgo.Router.Node.{
  Kind, skind, pkind, akind, NodeInfo, RouteNode, lcp, info, children, find_child,
  find_child_by_kind, find_handler, find_options,
}
use wgo.Router.Insert.{Router}
use wgo.Router.Find.{
  Stage, top, param, any, Search, Outcome, found, missing, panicked, Next, halt, go, segment,
  after_segment, store_last, finish, resume, step_any, step_param, step_child, step_top, step,
  find_from, start, find,
}
use wgo.Router.Walk.{Walk, begin, prefixed, parameter, to_static, to_param, to_any, again}
use wgo.Router.Walk.Parts.{
  lcp-prefix, segment-split, segment-All, find_child_by_kind_lem, find_child_lem,
}

module _ {F O : Type 0} (tree : RouteNode F O) (path method : Bytes) where
  -- The node returned is one where a walk ends that used up the path, and the handler is that of
  -- the node for the method.
  abbrev pub Right : Outcome F O → Type 0
  Right (found c f o pv) = (b : Bool) × Walk tree path b c [] × (f ≡ find_handler (info c) method)
  Right missing = Unit
  Right panicked = Unit

  -- What holds between two steps of the search.
  abbrev At : Stage → RouteNode F O → Bytes → Type 0
  At top c s = Walk tree path false c s
  At param c s = Walk tree path true c s
  At any c s = Walk tree path true c s

  abbrev Kept : Option (RouteNode F O) → Bytes → Type 0
  Kept none s = Unit
  Kept (some c) s = Walk tree path true c s

  abbrev Good : Next F O → Type 0
  Good (halt o) = Right o
  Good (go g s) = At g s.cn s.search × Kept s.nn s.ns

  store_last-Right :
      (i : NodeInfo F O) (v : Bytes) (pv : List Bytes) (k : List Bytes → Outcome F O)
      → ((pv' : List Bytes) → Right (k pv'))
      → Right (store_last i v pv k)
  unfolding store_last
  store_last-Right i v pv k h = elim (Bool-cases (length i.pnames == 0)) [
    | inl e ↦ rw e tt
    | inr e ↦ elim (Bool-cases (ltb (length i.pnames - 1) (length pv))) [
      | inl e' ↦ rw (e, e') (h _)
      | inr e' ↦ rw (e, e') tt
    ]
  ]

  wildcard-Right :
      (d : RouteNode F O) (pv : List Bytes)
      → Walk tree path true d []
      → Right (elim (find_handler (info d) method) [
        | some h ↦ found d (some h) (find_options (info d) method) pv
        | none ↦ found d none none pv
      ])
  wildcard-Right d pv w = elim (Option-cases (find_handler (info d) method)) [
    | inl e ↦ rw e (true, w, sym e)
    | inr (h, e) ↦ rw e (true, w, sym e)
  ]

  finish-Right :
      (b : Bool) (c : RouteNode F O) (pv : List Bytes)
      → Walk tree path b c []
      → Right (finish method c pv)
  unfolding finish
  finish-Right b c pv w = elim (Option-cases (find_handler (info c) method)) [
    | inr (f, e) ↦ rw (e, finish) (b, w, sym e)
    | inl e ↦ elim (Option-cases (find_child_by_kind (children c) akind)) [
      | inl e' ↦ rw (e, finish) (rw e' tt)
      | inr (d, e') ↦
          let ch = find_child_by_kind_lem (children c) akind d e' in
          let w' : Walk tree path true d [] = to_any b w ch.0 ch.1 in
          rw (e, finish)
            (rw e' (store_last-Right (info d) [] pv _ (λ pv'. wildcard-Right d pv' w')))
    ]
  ]

  abbrev search_of :
      RouteNode F O → Bytes → ℕ → Kind → Option (RouteNode F O) → Bytes → List Bytes → Search F O
  search_of cn search n nk nn ns pvalues = record {
    cn = cn;
    search = search;
    n = n;
    nk = nk;
    nn = nn;
    ns = ns;
    pvalues = pvalues;
  }

  resume-Good :
      (cn : RouteNode F O) (search : Bytes) (n : ℕ) (nk : Kind) (nn : Option (RouteNode F O))
      (ns : Bytes) (pv : List Bytes)
      → Kept nn ns
      → Good (resume (search_of cn search n nk nn ns pv))
  unfolding resume
  resume-Good cn search n skind nn ns pv k = tt
  resume-Good cn search n pkind none ns pv k = tt
  resume-Good cn search n pkind (some c) ns pv k = (k, k)
  resume-Good cn search n akind none ns pv k = tt
  resume-Good cn search n akind (some c) ns pv k = (k, k)

  go_back-Good :
      (cn : RouteNode F O) (search : Bytes) (n : ℕ) (nk : Kind) (nn : Option (RouteNode F O))
      (ns : Bytes) (pv : List Bytes)
      → Kept nn ns
      → find_child_by_kind (children cn) akind ≡ none
      → Good (step_any method (search_of cn search n nk nn ns pv))
  unfolding step_any
  go_back-Good cn search n nk none ns pv k e = rw (e, step_any) tt
  go_back-Good cn search n skind (some c) ns pv k e = rw (e, step_any) tt
  go_back-Good cn search n pkind (some c) ns pv k e = rw (e, step_any) (k, tt)
  go_back-Good cn search n akind (some c) ns pv k e = rw (e, step_any) (k, tt)

  step_any-Good :
      (s : Search F O) → At any s.cn s.search → Kept s.nn s.ns → Good (step_any method s)
  unfolding step_any
  step_any-Good s w k = elim (Option-cases (find_child_by_kind (children s.cn) akind)) [
    | inl e ↦ go_back-Good s.cn s.search s.n s.nk s.nn s.ns s.pvalues k e
    | inr (c, e) ↦
        let ch = find_child_by_kind_lem (children s.cn) akind c e in
        rw (e, step_any)
          (store_last-Right (info c) s.search s.pvalues _
            (λ pv. finish-Right true c pv (to_any true w ch.0 ch.1)))
  ]

  -- Saving the node to come back to.
  saved-Kept :
      (b : Bool) (s : Search F O) (nk : Kind)
      → Walk tree path true s.cn s.search
      → Kept s.nn s.ns
      → (let s' : Search F O =
            if b then record s { nk = nk; nn = some s.cn; ns = s.search } else s in
          Kept s'.nn s'.ns)
  saved-Kept true s nk w k = w
  saved-Kept false s nk w k = k

  step_param-Good :
      (s : Search F O) → At param s.cn s.search → Kept s.nn s.ns → Good (step_param method s)
  unfolding step_param
  step_param-Good s w k = elim (Option-cases (find_child_by_kind (children s.cn) pkind)) [
    | inl e ↦ rw (e, step_param) (w, k)
    | inr (c, e) ↦ elim (Bool-cases (length s.pvalues == s.n)) [
      | inl full ↦ rw (e, step_param) (rw full (again w, k))
      | inr room ↦
          let ch = find_child_by_kind_lem (children s.cn) pkind c e in
          rw (e, step_param)
            (rw room (
              to_param (segment s.search) (after_segment s.search) w (segment-split s.search)
                  (segment-All s.search) ch.0 ch.1,
              saved-Kept ((info s.cn).label == b'/') s akind w k,
            ))
    ]
  ]

  step_child-Good :
      (cn : RouteNode F O) (search : Bytes) (n : ℕ) (nk : Kind) (nn : Option (RouteNode F O))
      (ns : Bytes) (pv : List Bytes)
      → Walk tree path true cn search
      → Kept nn ns
      → Good (step_child method (search_of cn search n nk nn ns pv))
  unfolding step_child
  step_child-Good cn [] n nk nn ns pv w k = finish-Right true cn pv w
  step_child-Good cn (b ∷ bs) n nk nn ns pv w k =
      elim (Option-cases (find_child (children cn) b skind)) [
        | inl e ↦ rw (e, step_child) (w, k)
        | inr (c, e) ↦
            let ch = find_child_lem (children cn) b skind c e in
            let next = to_static b bs w refl ch.0 ch.1 ch.2 in
            rw (e, step_child)
              (elim (Bool-cases ((info cn).label == b'/')) [
                | inl q ↦ rw q (next, w)
                | inr q ↦ rw q (next, k)
              ])
      ]

  step_top-at :
      (cn : RouteNode F O) (search : Bytes) (n : ℕ) (nk : Kind) (nn : Option (RouteNode F O))
      (ns : Bytes) (pv : List Bytes)
      → Walk tree path false cn search
      → Kept nn ns
      → Good (step_top method (search_of cn search n nk nn ns pv))
  unfolding step_top
  step_top-at cn [] n nk nn ns pv w k = finish-Right false cn pv w
  step_top-at cn (b ∷ bs) n nk nn ns pv w k = elim (Bool-cases ((info cn).label == b':')) [
    | inl colon ↦
        rw (colon, step_top)
          (rw colon
            (step_child-Good cn (b ∷ bs) n nk nn ns pv (parameter w (eq_of_== _ _ colon)) k))
    | inr plain ↦ elim (Bool-cases (lcp (b ∷ bs) (info cn).prefix == length (info cn).prefix)) [
      | inl e ↦
          rw (plain, step_top)
            (rw e (
              rw plain (
                step_child-Good cn (drop (lcp (b ∷ bs) (info cn).prefix) (b ∷ bs)) n nk nn ns pv
                  (prefixed _ w (lcp-prefix (b ∷ bs) (info cn).prefix (eq_of_== _ _ e))) k)))
      | inr e ↦ rw (plain, step_top) (rw e (resume-Good cn (b ∷ bs) n nk nn ns pv k))
    ]
  ]

  step_top-Good :
      (s : Search F O) → At top s.cn s.search → Kept s.nn s.ns → Good (step_top method s)
  step_top-Good s w k = step_top-at s.cn s.search s.n s.nk s.nn s.ns s.pvalues w k

  step-Good :
      (g : Stage) (s : Search F O) → At g s.cn s.search → Kept s.nn s.ns → Good (step method g s)
  unfolding step
  step-Good top s w k = step_top-Good s w k
  step-Good param s w k = step_param-Good s w k
  step-Good any s w k = step_any-Good s w k

  some_inj : {A : Type 0} (a b : A) → ◌≡◌ {A = Option A} (some a) (some b) → a ≡ b
  some_inj a b e = cc e

  find_from-Right :
      (fuel : ℕ) (x : Next F O) (o : Outcome F O)
      → Good x
      → find_from fuel method x ≡ some o
      → Right o
  unfolding find_from
  find_from-Right fuel (halt o') o g e = subst Right (some_inj o' o e) g
  find_from-Right zero (go h s) o g e = cc e
  find_from-Right (suc fuel) (go h s) o g e =
      find_from-Right fuel (step method h s) o (step-Good h s g.0 g.1) e

module _ {F O : Type 0} where
  -- For any tree, any number of parameter values and any fuel: a node that `Find` returns is one to
  -- which the text of the path leads down the tree and where the whole of it is used up, and the
  -- handler that comes with it is the one of that node for the method. On its way the walk may take
  -- a node's prefix again, as the search does when the parameter values are used up.
  pub find-Right :
      (fuel : ℕ) (r : Router F O) (method path : Bytes) (pvalues : List Bytes) (c : RouteNode F O)
      (f : Option F) (o : Option O) (pv : List Bytes)
      → find fuel r method path pvalues ≡ some (found c f o pv)
      → Right r.tree path method (found c f o pv)
  unfolding find
  find-Right fuel r method path pvalues c f o pv e =
      find_from-Right r.tree path method fuel (go top (start r.tree path pvalues)) (found c f o pv)
        (begin, tt) e
