-- ===== src/Router/Spin.antt =====
-- whttp/router.go: a loop of `Find` that never ends. At `Param:` with every parameter value used up
-- it continues without changing its state, and the next round comes back to `Param:`.
use wgo.Common.{
  ℕ, zero, suc, ◌≡◌, ◌≢◌, refl, ap, ◌∙◌, none, some, List, [], ◌∷◌, Bytes, length, arith,
}
use wgo.Router.Node.{pkind, NodeInfo, RouteNode, node, Children, lcp, find_child_by_kind}
use wgo.Router.Find.{Search, go, top, param, step, step_top, step_param, resume, find_from}

module _ {F O : Type 0} where
  -- The search stands at a node, from which it was to continue with a parameter.
  abbrev pub waiting : NodeInfo F O → Children F O → ℕ → Bytes → List Bytes → Search F O
  waiting i cs b bs pv = record {
    cn = node i cs;
    search = b ∷ bs;
    n = length pv;
    nk = pkind;
    nn = some (node i cs);
    ns = b ∷ bs;
    pvalues = pv;
  }

  top-waiting :
      (method : Bytes) (i : NodeInfo F O) (cs : Children F O) (b : ℕ) (bs : Bytes) (pv : List Bytes)
      → i.label ≡ b'/'
      → i.prefix ≡ b'/' ∷ []
      → b ≢ b'/'
      → step method top (waiting i cs b bs pv) ≡ go param (waiting i cs b bs pv)
  unfolding step step_top resume lcp
  top-waiting method i cs b bs pv lab pre ne = ground (arith, lab, pre, ne)

  param-waiting :
      (method : Bytes) (i : NodeInfo F O) (cs : Children F O) (b : ℕ) (bs : Bytes) (pv : List Bytes)
      (c : RouteNode F O)
      → find_child_by_kind cs pkind ≡ some c
      → step method param (waiting i cs b bs pv) ≡ go top (waiting i cs b bs pv)
  unfolding step step_param
  param-waiting method i cs b bs pv c below = ground (arith, below)

  waiting_forever :
      (method : Bytes) (i : NodeInfo F O) (cs : Children F O) (b : ℕ) (bs : Bytes) (pv : List Bytes)
      (c : RouteNode F O) (fuel : ℕ)
      → i.label ≡ b'/'
      → i.prefix ≡ b'/' ∷ []
      → b ≢ b'/'
      → find_child_by_kind cs pkind ≡ some c
      → (find_from fuel method (go top (waiting i cs b bs pv)) ≡ none)
        × (find_from fuel method (go param (waiting i cs b bs pv)) ≡ none)
  unfolding find_from
  waiting_forever method i cs b bs pv c zero lab pre ne below = (refl, refl)
  waiting_forever method i cs b bs pv c (suc fuel) lab pre ne below =
      let (at_top, at_param) = waiting_forever method i cs b bs pv c fuel lab pre ne below in
      (
        ap (find_from fuel method) (top-waiting method i cs b bs pv lab pre ne) ∙ at_param,
        ap (find_from fuel method) (param-waiting method i cs b bs pv c below) ∙ at_top,
      )

  -- Where every parameter value is used up, at a node whose prefix is a slash, with a parameter below
  -- it and a text that does not begin with a slash: if the search was to continue there with a
  -- parameter, `Find` does not end, on whatever fuel.
  pub find_from-waiting :
      (method : Bytes) (i : NodeInfo F O) (cs : Children F O) (b : ℕ) (bs : Bytes) (pv : List Bytes)
      (c : RouteNode F O) (fuel : ℕ)
      → i.label ≡ b'/'
      → i.prefix ≡ b'/' ∷ []
      → b ≢ b'/'
      → find_child_by_kind cs pkind ≡ some c
      → find_from fuel method (go param (waiting i cs b bs pv)) ≡ none
  find_from-waiting method i cs b bs pv c fuel lab pre ne below =
      (waiting_forever method i cs b bs pv c fuel lab pre ne below).1
