-- ===== src/Router/Static/Shape.antt =====
-- whttp/router.go: the branches of `insert` at a node and among its children.
use wgo.Common.{
  ℕ, ◌≡◌, ◌≢◌, refl, none, some, [], ◌∷◌, Bytes, length, arith, Option-cases, ◌<◌, take, drop,
}
use wgo.Router.Node.{
  NodeInfo, RouteNode, node, Children, nil, cons, info, first_byte, lcp, add_child, add_handler,
  add_options,
}
use wgo.Router.Insert.{Call, register, leaf, at_node, split_node, insert_node, insert_child}
use wgo.Router.Prefix.{strip, strip-take}

pub strip_cut_none : (l : ℕ) (p q : Bytes) → strip (take l p) q ≡ none → strip p q ≡ none
strip_cut_none l p q e = ground (arith, strip-take l p q)

pub strip_cut :
    (l : ℕ) (p q r : Bytes) → strip (take l p) q ≡ some r → strip p q ≡ strip (drop l p) r
strip_cut l p q r e = ground (arith, strip-take l p q)

pub lcp_pos : (s p : Bytes) → s ≢ [] → p ≢ [] → first_byte p ≡ first_byte s → lcp s p ≢ 0
unfolding lcp
lcp_pos [] p hs hp e = absurd (hs refl)
lcp_pos (b ∷ s) [] hs hp e = absurd (hp refl)
lcp_pos (b ∷ s) (a ∷ p) hs hp e = ground arith

module _ {F O : Type 0} where
  pub prefix-register : (call : Call F O) (i : NodeInfo F O) → (register call i).prefix ≡ i.prefix
  unfolding register add_handler add_options
  prefix-register call i = refl

  -- The children after `insert` has gone below a node.
  abbrev pub grown : Call F O → Children F O → Bytes → Children F O
  grown call cs s = elim (insert_child call cs s) [
    | none ↦ add_child cs (leaf call s)
    | some cs' ↦ cs'
  ]

  -- The label is the first byte of a prefix that is not empty.
  abbrev pub IsLabelled : RouteNode F O → Type 0
  IsLabelled c = ((info c).label ≡ first_byte (info c).prefix) × ((info c).prefix ≢ [])

  pub label-insert_node :
      (call : Call F O) (c : RouteNode F O) (s : Bytes)
      → IsLabelled c
      → lcp s (info c).prefix ≢ 0
      → (info (insert_node call c s)).label ≡ (info c).label
  unfolding insert_node split_node at_node register add_handler add_options
  label-insert_node call (node i cs) s lab pos = ground arith

  pub insert_node-split :
      (call : Call F O) (i : NodeInfo F O) (cs : Children F O) (s : Bytes)
      → lcp s i.prefix ≢ 0
      → lcp s i.prefix < length i.prefix
      → insert_node call (node i cs) s ≡ split_node call i cs s (lcp s i.prefix)
  unfolding insert_node
  insert_node-split call i cs s pos short = ground arith

  pub insert_node-through :
      (call : Call F O) (i : NodeInfo F O) (cs : Children F O) (s : Bytes)
      → lcp s i.prefix ≢ 0
      → lcp s i.prefix ≡ length i.prefix
      → lcp s i.prefix < length s
      → insert_node call (node i cs) s ≡ node i (grown call cs (drop (lcp s i.prefix) s))
  unfolding insert_node
  insert_node-through call i cs s pos full longer =
      ground (arith, Option-cases (insert_child call cs (drop (lcp s i.prefix) s)))

  pub insert_node-end :
      (call : Call F O) (i : NodeInfo F O) (cs : Children F O) (s : Bytes)
      → lcp s i.prefix ≢ 0
      → lcp s i.prefix ≡ length i.prefix
      → lcp s i.prefix ≡ length s
      → insert_node call (node i cs) s ≡ at_node call i cs
  unfolding insert_node
  insert_node-end call i cs s pos full ends = ground arith

  pub grown-nil : (call : Call F O) (s : Bytes) → grown call nil s ≡ cons (leaf call s) nil
  unfolding insert_child add_child
  grown-nil call s = refl

  pub grown-hit :
      (call : Call F O) (c : RouteNode F O) (cs : Children F O) (s : Bytes)
      → (info c).label ≡ first_byte s
      → grown call (cons c cs) s ≡ cons (insert_node call c s) cs
  unfolding insert_child
  grown-hit call c cs s hit = ground arith

  pub grown-miss :
      (call : Call F O) (c : RouteNode F O) (cs : Children F O) (s : Bytes)
      → (info c).label ≢ first_byte s
      → grown call (cons c cs) s ≡ cons c (grown call cs s)
  unfolding insert_child add_child
  grown-miss call c cs s miss = ground (arith, Option-cases (insert_child call cs s))
