-- ===== src/Router/Walk.antt =====
-- whttp/router.go: which walks down the tree the text of a path allows, said without the search.
mod Parts
pub mod Sound
mod Tests
use wgo.Common.{◌⊎◌, ℕ, ◌≡◌, ◌≢◌, Bool, true, false, List, [], ◌∷◌, ◌++◌, Bytes, All}
use wgo.Router.Node.{
  Kind, skind, pkind, akind, NodeInfo, RouteNode, Children, nil, cons, info, children,
}

module _ {F O : Type 0} where
  abbrev pub IsChild : RouteNode F O → Children F O → Type 0
  IsChild d nil = ⊥
  IsChild d (cons c cs) = (c ≡ d) ⊎ IsChild d cs

-- `Walk tree path false c rest`: a walk came to `c` with the text `rest` to go; with `true` it is
-- behind the prefix of `c`.
pub data Walk {F O : Type 0} (tree : RouteNode F O) (path : Bytes)
    : Bool → RouteNode F O → Bytes → Type 0 where
  begin : Walk tree path false tree path
  -- the text goes on with the node's prefix
  prefixed :
      {c : RouteNode F O} {s : Bytes} (rest : Bytes)
      → Walk tree path false c s
      → s ≡ (info c).prefix ++ rest
      → Walk tree path true c rest
  -- the node of a parameter has no text of its own
  parameter :
      {c : RouteNode F O} {s : Bytes}
      → Walk tree path false c s
      → (info c).label ≡ b':'
      → Walk tree path true c s
  -- a static child whose label is the next byte
  to_static :
      {c d : RouteNode F O} {s : Bytes} (b : ℕ) (bs : Bytes)
      → Walk tree path true c s
      → s ≡ b ∷ bs
      → IsChild d (children c)
      → (info d).kind ≡ skind
      → (info d).label ≡ b
      → Walk tree path false d s
  -- a parameter's child, which takes the text before the next slash
  to_param :
      {c d : RouteNode F O} {s : Bytes} (value rest : Bytes)
      → Walk tree path true c s
      → s ≡ value ++ rest
      → All (λ b. b ≢ b'/') value
      → IsChild d (children c)
      → (info d).kind ≡ pkind
      → Walk tree path false d rest
  -- a wildcard's child, which takes all of the text
  to_any :
      {c d : RouteNode F O} {s : Bytes} (b : Bool)
      → Walk tree path b c s
      → IsChild d (children c)
      → (info d).kind ≡ akind
      → Walk tree path true d []
  -- the same node again, as the search does when the parameter values are used up
  again : {c : RouteNode F O} {s : Bytes} → Walk tree path true c s → Walk tree path false c s
