-- ===== src/Router/Static/Find.antt =====
-- whttp/router.go: on a tree of static routes `Find` returns what the tree locates.
use wgo.Common.{
  arith, ℕ, suc, ◌≡◌, refl, false, Option, none, some, List, ◌∷◌, Bytes, Option-cases, inl, inr,
  ◌⊎◌,
}
use wgo.Router.Node.{
  Kind, skind, pkind, akind, NodeInfo, RouteNode, node, Children, nil, cons, info, children,
  find_child, find_child_by_kind, kind_eq,
}
use wgo.Router.Find.{
  missing, param, any, Search, go, find_from, finish, step, step_top, step_child, resume,
}
use wgo.Router.Prefix.{strip, lcp_of_strip, lcp_of_strip-none}
use wgo.Router.Static.{locate, locate_child, IsStatic, AreStatic, outcome}

module _ {F O : Type 0} where
  -- The node saved for a later turn, if any, is static too.
  abbrev pub Saved : Search F O → Type 0
  Saved s = (s.nk ≡ skind) ⊎ ((s.nk ≡ pkind) × (c : RouteNode F O) × (s.nn ≡ some c) × IsStatic c)

  kind-static : (c : RouteNode F O) → IsStatic c → (info c).kind ≡ skind
  unfolding IsStatic
  kind-static (node i cs) h = h.0

  no_kind :
      (cs : Children F O) (t : Kind)
      → AreStatic cs
      → kind_eq skind t ≡ false
      → find_child_by_kind cs t ≡ none
  unfolding find_child_by_kind IsStatic
  no_kind nil t h e = refl
  no_kind (cons c cs) t h e = simp (kind-static c h.0, e) (no_kind cs t h.3 e)

  no_kind_below :
      (c : RouteNode F O) (t : Kind)
      → IsStatic c
      → kind_eq skind t ≡ false
      → find_child_by_kind (children c) t ≡ none
  unfolding IsStatic
  no_kind_below (node i cs) t h e = no_kind cs t h.2 e

  no_param : (c : RouteNode F O) → IsStatic c → find_child_by_kind (children c) pkind ≡ none
  unfolding kind_eq
  no_param c h = no_kind_below c pkind h refl

  no_any : (c : RouteNode F O) → IsStatic c → find_child_by_kind (children c) akind ≡ none
  unfolding kind_eq
  no_any c h = no_kind_below c akind h refl

  -- A static child is found by its label, which `locate` goes by.
  pub locate_child-find_child :
      (cs : Children F O) (b : ℕ) (bs : Bytes)
      → AreStatic cs
      → locate_child cs (b ∷ bs)
        ≡ elim (find_child cs b skind) [ none ↦ none | some c ↦ locate c (b ∷ bs) ]
  unfolding find_child locate_child kind_eq IsStatic
  locate_child-find_child nil b bs h = refl
  locate_child-find_child (cons c cs) b bs h =
      ground (arith, kind-static c h.0, locate_child-find_child cs b bs h.3)

  pub finish-static :
      (method : Bytes) (c : RouteNode F O) (pvalues : List Bytes)
      → IsStatic c
      → finish method c pvalues ≡ outcome method pvalues (some c)
  unfolding finish outcome
  finish-static method c pvalues h = ground (arith, no_any c h)

  module _ (method : Bytes) where
    -- With no parameter and no wildcard below, the search ends with nothing found.
    any-missing :
        (fuel : ℕ) (s : Search F O)
        → IsStatic s.cn
        → Saved s
        → find_from (suc (suc (suc fuel))) method (go any s) ≡ some missing
    unfolding find_from step
    any-missing fuel s h (inl skip) = ground (arith, no_any s.cn h)
    any-missing fuel s h (inr (again, c, e, hc)) =
        ground (arith, no_any s.cn h, no_param c hc, no_any c hc)

    pub param-missing :
        (fuel : ℕ) (s : Search F O)
        → IsStatic s.cn
        → Saved s
        → find_from (suc (suc (suc (suc fuel)))) method (go param s) ≡ some missing
    unfolding find_from step
    param-missing fuel s h saved = ground (arith, no_param s.cn h, any-missing fuel s h saved)

    pub resume-missing :
        (fuel : ℕ) (s : Search F O)
        → Saved s
        → find_from (suc (suc (suc (suc fuel)))) method (resume s) ≡ some missing
    unfolding find_from step resume
    resume-missing fuel s (inl skip) = ground arith
    resume-missing fuel s (inr (again, c, e, hc)) =
        ground (
          arith,
          param-missing fuel (record s { cn = c; search = s.ns }) hc (inr (again, c, e, hc)),
        )

    -- One round of the loop at a node.
    pub round :
        (i : NodeInfo F O) (cs : Children F O) (b : ℕ) (bs : Bytes) (n : ℕ) (nk : Kind)
        (nn : Option (RouteNode F O)) (ns : Bytes) (pv : List Bytes)
        → IsStatic (node i cs)
        → step_top method (record {
          cn = node i cs;
          search = b ∷ bs;
          n = n;
          nk = nk;
          nn = nn;
          ns = ns;
          pvalues = pv;
        })
          ≡ elim (strip i.prefix (b ∷ bs)) [
            | none ↦ resume (record {
              cn = node i cs;
              search = b ∷ bs;
              n = n;
              nk = nk;
              nn = nn;
              ns = ns;
              pvalues = pv;
            })
            | some rest ↦ step_child method (record {
              cn = node i cs;
              search = rest;
              n = n;
              nk = nk;
              nn = nn;
              ns = ns;
              pvalues = pv;
            })
          ]
    unfolding step_top IsStatic
    round i cs b bs n nk nn ns pv h = elim (Option-cases (strip i.prefix (b ∷ bs))) [
      | inl e ↦ ground (arith, lcp_of_strip-none i.prefix (b ∷ bs) e)
      | inr (rest, e) ↦ ground (arith, lcp_of_strip i.prefix (b ∷ bs) rest e)
    ]
