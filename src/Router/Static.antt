-- ===== src/Router/Static.antt =====
-- whttp/router.go: trees of static routes, and what is looked up in them.
pub mod Find
pub mod Settle
pub mod Insert
pub mod Shape
pub mod Cases
pub mod Laws
pub mod Keep
pub mod Serve
pub mod Routes
use wgo.Common.{
  All, bytes_eq, sym, ℕ, zero, suc, ◌+◌, ◌≡◌, ◌≢◌, refl, ap, Bool, true, false, Option, none, some,
  List, [], ◌∷◌, ◌++◌, Bytes, ◌==◌, if◌then◌else◌, length, drop, take, arith, Bool-cases, inl, inr,
  ==_refl, eq_of_==, ne_of_==, ◌≤◌, ◌<◌,
}
use wgo.Router.Node.{
  Kind, skind, NodeInfo, RouteNode, node, Children, nil, cons, first_byte, lcp, info, find_handler,
  find_options,
}
use wgo.Router.Prefix.{strip}
use wgo.Router.Find.{Outcome, found, missing}

module _ {F O : Type 0} where
  unfoldable mutual
    -- The node at which the text ends exactly.
    pub locate : RouteNode F O → Bytes → Option (RouteNode F O)
    locate (node i cs) s = elim (strip i.prefix s) [
      | none ↦ none
      | some rest ↦ elim rest [ [] ↦ some (node i cs) | b ∷ bs ↦ locate_child cs (b ∷ bs) ]
    ]

    pub locate_child : Children F O → Bytes → Option (RouteNode F O)
    locate_child nil s = none
    locate_child (cons c cs) s = elim ((info c).label == first_byte s) [
      | true ↦ locate c s
      | false ↦ locate_child cs s
    ]

  pub locate-strip-none :
      (i : NodeInfo F O) (cs : Children F O) (s : Bytes)
      → strip i.prefix s ≡ none
      → locate (node i cs) s ≡ none
  unfolding locate
  locate-strip-none i cs s e = ground arith

  pub locate-strip :
      (i : NodeInfo F O) (cs : Children F O) (s rest : Bytes)
      → strip i.prefix s ≡ some rest
      → locate (node i cs) s
        ≡ elim rest [ [] ↦ some (node i cs) | b ∷ bs ↦ locate_child cs (b ∷ bs) ]
  unfolding locate
  locate-strip i cs s rest e = ground arith

  -- Every node is static, and a child's label is the first byte of its prefix.
  unfoldable mutual
    pub IsStatic : RouteNode F O → Type 0
    IsStatic (node i cs) =
        (i.kind ≡ skind) × (i.label ≢ b':') × AreStatic cs × All (λ b. b ≢ b':') i.prefix

    pub AreStatic : Children F O → Type 0
    AreStatic nil = Unit
    AreStatic (cons c cs) =
        IsStatic c
        × ((info c).label ≡ first_byte (info c).prefix)
        × ((info c).prefix ≢ [])
        × AreStatic cs

  -- What `Find` returns for a located node: the node with its handler for the method, if any.
  unfoldable pub outcome : Bytes → List Bytes → Option (RouteNode F O) → Outcome F O
  outcome method pvalues none = missing
  outcome method pvalues (some c) = elim (find_handler (info c) method) [
    | none ↦ missing
    | some f ↦ found c (some f) (find_options (info c) method) pvalues
  ]
