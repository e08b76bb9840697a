-- ===== src/Router/Find.antt =====
-- whttp/router.go: `Find`, as a machine. Each step runs from one of the points `for`, `Param:` and
-- `Any:` to the next one. A nil `cn` is dereferenced at `Param:` and `Any:`, which is a panic.
use wgo.Common.{
  ℕ, zero, suc, ◌+◌, ◌-◌, true, false, Option, none, some, List, [], ◌∷◌, Bytes, ◌==◌, ltb,
  if◌then◌else◌, length, drop, set,
}
use wgo.Router.Node.{
  Kind, skind, pkind, akind, NodeInfo, RouteNode, lcp, info, children, find_child,
  find_child_by_kind, find_handler, find_options,
}
use wgo.Router.Insert.{Router}

pub data Stage : Type 0 where
  top param any : Stage

pub record Search (F O : Type 0) : Type 0 where
  pub cn : RouteNode F O
  pub search : Bytes
  pub n : ℕ
  pub nk : Kind
  pub nn : Option (RouteNode F O)
  pub ns : Bytes
  pub pvalues : List Bytes

-- `found` carries the node that is returned, its `Func` and `Opts`, and the parameter values.
pub data Outcome (F O : Type 0) : Type 0 where
  found : RouteNode F O → Option F → Option O → List Bytes → Outcome F O
  missing : Outcome F O
  panicked : Outcome F O

pub data Next (F O : Type 0) : Type 0 where
  halt : Outcome F O → Next F O
  go : Stage → Search F O → Next F O

-- The text up to the next slash, and from it on.
unfoldable pub segment : Bytes → Bytes
segment [] = []
segment (b ∷ bs) = if b == b'/' then [] else b ∷ segment bs

unfoldable pub after_segment : Bytes → Bytes
after_segment [] = []
after_segment (b ∷ bs) = if b == b'/' then b ∷ bs else after_segment bs

module _ {F O : Type 0} where
  -- `pvalues[len(cn.pnames)-1] = v`, then `k`; a panic if the index is out of range.
  unfoldable pub store_last :
      NodeInfo F O → Bytes → List Bytes → (List Bytes → Outcome F O) → Outcome F O
  store_last i v pvalues k =
      if length i.pnames == 0
      then panicked
      else if ltb (length i.pnames - 1) (length pvalues)
      then k (set pvalues (length i.pnames - 1) v)
      else panicked

  -- The part behind the label `End:`.
  unfoldable pub finish : Bytes → RouteNode F O → List Bytes → Outcome F O
  finish method cn pvalues = elim (find_handler (info cn) method) [
    | some f ↦ found cn (some f) (find_options (info cn) method) pvalues
    | none ↦ elim (find_child_by_kind (children cn) akind) [
      | none ↦ missing
      | some c ↦ store_last (info c) [] pvalues λ pv. elim (find_handler (info c) method) [
        | some h ↦ found c (some h) (find_options (info c) method) pv
        | none ↦ found c none none pv
      ]
    ]
  ]

  -- `cn = nn; search = ns`, then the jump that `nk` selects.
  unfoldable pub resume : Search F O → Next F O
  resume s = elim s.nk [
    | skind ↦ halt missing
    | pkind ↦ elim s.nn [
      | none ↦ halt panicked
      | some c ↦ go param (record s { cn = c; search = s.ns })
    ]
    | akind ↦ elim s.nn [
      | none ↦ halt panicked
      | some c ↦ go any (record s { cn = c; search = s.ns })
    ]
  ]

  unfoldable pub step_any : Bytes → Search F O → Next F O
  unfolding resume
  step_any method s = elim (find_child_by_kind (children s.cn) akind) [
    | some c ↦ halt (store_last (info c) s.search s.pvalues (λ pv. finish method c pv))
    | none ↦ elim s.nn [
      | none ↦ halt missing
      | some c ↦ elim s.nk [
        | skind ↦ halt missing
        | pkind ↦ go param (record s { cn = c; nn = none; search = s.ns })
        | akind ↦ go any (record s { cn = c; nn = none; search = s.ns })
      ]
    ]
  ]

  -- `pvalues[n]` is in range, since `len(pvalues) != n` and `n` counts up from 0.
  unfoldable pub step_param : Bytes → Search F O → Next F O
  step_param method s = elim (find_child_by_kind (children s.cn) pkind) [
    | none ↦ go any s
    | some c ↦ elim (length s.pvalues == s.n) [
      | true ↦ go top s
      | false ↦
          let s' =
            if (info s.cn).label == b'/'
            then record s { nk = akind; nn = some s.cn; ns = s.search }
            else s in
          go top (record s' {
            cn = c;
            pvalues = set s.pvalues s.n (segment s.search);
            n = s.n + 1;
            search = after_segment s.search;
          })
    ]
  ]

  -- A round of the loop up to `Param:`, behind the comparison with the prefix.
  unfoldable pub step_child : Bytes → Search F O → Next F O
  step_child method s = elim s.search [
    | [] ↦ halt (finish method s.cn s.pvalues)
    | b ∷ bs ↦ elim (find_child (children s.cn) b skind) [
      | none ↦ go param s
      | some c ↦
          let s' =
            if (info s.cn).label == b'/'
            then record s { nk = pkind; nn = some s.cn; ns = s.search }
            else s in
          go top (record s' { cn = c })
    ]
  ]

  unfoldable pub step_top : Bytes → Search F O → Next F O
  step_top method s = elim s.search [
    | [] ↦ halt (finish method s.cn s.pvalues)
    | b ∷ bs ↦
        let colon = (info s.cn).label == b':' in
        let pl = if colon then 0 else length (info s.cn).prefix in
        let l = if colon then 0 else lcp s.search (info s.cn).prefix in
        elim (l == pl) [
          | true ↦ step_child method (record s { search = drop l s.search })
          | false ↦ resume s
        ]
  ]

  unfoldable pub step : Bytes → Stage → Search F O → Next F O
  unfolding step_top step_param step_any
  step method top s = step_top method s
  step method param s = step_param method s
  step method any s = step_any method s

  -- `none` means that the fuel ran out.
  unfoldable pub find_from : ℕ → Bytes → Next F O → Option (Outcome F O)
  find_from fuel method (halt o) = some o
  find_from zero method (go g s) = none
  find_from (suc fuel) method (go g s) = find_from fuel method (step method g s)

  abbrev pub start : RouteNode F O → Bytes → List Bytes → Search F O
  start tree path pvalues = record {
    cn = tree;
    search = path;
    n = 0;
    nk = skind;
    nn = none;
    ns = [];
    pvalues = pvalues;
  }

  unfoldable pub find : ℕ → Router F O → Bytes → Bytes → List Bytes → Option (Outcome F O)
  find fuel r method path pvalues = find_from fuel method (go top (start r.tree path pvalues))
