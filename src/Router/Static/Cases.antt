-- ===== src/Router/Static/Cases.antt =====
-- whttp/router.go: the answers after `insert`, branch by branch.
use wgo.Common.{
  ℕ, ◌≡◌, ◌≢◌, refl, sym, ap, ◌∙◌, Bool, Option, none, some, [], ◌∷◌, Bytes, ◌==◌, length, arith,
  Bool-cases, inl, inr, ◌<◌, bytes_eq, take, drop, eq_of_==, ne_of_==,
}
use wgo.Router.Methods.{Verb, verb_of}
use wgo.Router.Node.{NodeInfo, RouteNode, node, Children, nil, cons, info, first_byte, lcp}
use wgo.Router.Insert.{Call, register, leaf, at_node, split_node}
use wgo.Router.Prefix.{
  strip, strip-take-lcp, first_byte-lcp, drop-ne-nil, bytes_eq-strip, bytes_eq-strip-none,
  bytes_eq_first, bytes_eq_nil, lcp-le, drop-length,
}
use wgo.Router.Static.{locate, locate_child}
use wgo.Router.Static.Insert.{
  handler_of, below, updated, handler_of-node, handler_of-locate_child, handler_of-leaf, label-leaf,
  split_below, split_end_below, find_handler-register, locate_child-nil,
}
use wgo.Router.Static.Shape.{strip_cut_none, strip_cut, prefix-register}

module _ {F O : Type 0} (call : Call F O) (h : F) (method : Bytes) (v w : Verb)
    (handled : call.handler ≡ some h) (inserted : verb_of call.method ≡ some v)
    (asked : verb_of method ≡ some w) where
  abbrev pub now : Bool → Option F → Option F
  now = updated call h method v w handled inserted asked

  pub cut_law :
      (i i' : NodeInfo F O) (cs cs' : Children F O) (s q : Bytes)
      → i'.prefix ≡ take (lcp s i.prefix) i.prefix
      → ((r : Bytes)
          → below method i' cs' (some r)
            ≡ now
                (bytes_eq (drop (lcp s i.prefix) s) r)
                (below method i cs (strip (drop (lcp s i.prefix) i.prefix) r)))
      → handler_of (locate (node i' cs') q) method
        ≡ now (bytes_eq s q) (below method i cs (strip i.prefix q))
  cut_law i i' cs cs' s q pre behind =
      handler_of-node method i' cs' q
      ∙ ap (λ (x : Bytes). below method i' cs' (strip x q)) pre
      ∙ go (strip (take (lcp s i.prefix) i.prefix) q) refl
    where
      go :
          (r : Option Bytes)
          → strip (take (lcp s i.prefix) i.prefix) q ≡ r
          → below method i' cs' r ≡ now (bytes_eq s q) (below method i cs (strip i.prefix q))
      go none e =
          rw
            (
              bytes_eq-strip-none _ s q _ (strip-take-lcp s i.prefix) e,
              strip_cut_none (lcp s i.prefix) i.prefix q e,
            )
            refl
      go (some r) e =
          rw
            (
              bytes_eq-strip _ s q _ r (strip-take-lcp s i.prefix) e,
              strip_cut (lcp s i.prefix) i.prefix q r e,
            )
            (behind r)

  pub split_law :
      (i : NodeInfo F O) (cs : Children F O) (s q : Bytes)
      → lcp s i.prefix < length i.prefix
      → handler_of (locate (split_node call i cs s (lcp s i.prefix)) q) method
        ≡ now (bytes_eq s q) (below method i cs (strip i.prefix q))
  unfolding split_node
  split_law i cs s q short = elim (Bool-cases (lcp s i.prefix == length s)) [
    | inl ends ↦ rw ends (
        cut_law i _ cs _ s q (prefix-register call _) (λ r.
          rw (drop-length (lcp s i.prefix) s (eq_of_== _ _ ends)) (
            split_end_below call h method v w handled inserted asked i cs _ r
              (drop-ne-nil _ i.prefix short) _ refl)))
    | inr goes_on ↦
        let longer : lcp s i.prefix < length s =
          omega (arith, lcp-le s i.prefix, ne_of_== _ _ goes_on) in
        rw goes_on (
          cut_law i _ cs _ s q refl (λ r.
            split_below call h method v w handled inserted asked i cs _ _ r
              (drop-ne-nil _ i.prefix short) (drop-ne-nil _ s longer)
              (first_byte-lcp s i.prefix short longer) _ refl))
  ]

  -- Where the node's prefix ends, from the law for the grown children.
  pub through_law :
      (i : NodeInfo F O) (cs cs' : Children F O) (s q : Bytes)
      → strip i.prefix s ≡ some (drop (lcp s i.prefix) s)
      → drop (lcp s i.prefix) s ≢ []
      → ((b : ℕ) (bs : Bytes)
          → handler_of (locate_child cs' (b ∷ bs)) method
            ≡ now
                (bytes_eq (drop (lcp s i.prefix) s) (b ∷ bs))
                (handler_of (locate_child cs (b ∷ bs)) method))
      → handler_of (locate (node i cs') q) method
        ≡ now (bytes_eq s q) (below method i cs (strip i.prefix q))
  through_law i cs cs' s q sub more law =
      handler_of-node method i cs' q ∙ go (strip i.prefix q) refl
    where
      go :
          (r : Option Bytes)
          → strip i.prefix q ≡ r
          → below method i cs' r ≡ now (bytes_eq s q) (below method i cs r)
      go none e = rw (bytes_eq-strip-none _ s q _ sub e) refl
      go (some []) e = rw (bytes_eq-strip _ s q _ [] sub e, bytes_eq_nil _ more) refl
      go (some (b ∷ bs)) e = rw (bytes_eq-strip _ s q _ (b ∷ bs) sub e) (law b bs)

  pub at_node-some :
      (i : NodeInfo F O) (cs : Children F O) → at_node call i cs ≡ node (register call i) cs
  unfolding at_node
  at_node-some i cs = ground arith

  -- Where the path ends on the node.
  pub at_node_law :
      (i : NodeInfo F O) (cs : Children F O) (s q : Bytes)
      → strip i.prefix s ≡ some []
      → handler_of (locate (at_node call i cs) q) method
        ≡ now (bytes_eq s q) (below method i cs (strip i.prefix q))
  unfolding bytes_eq
  at_node_law i cs s q sub =
      ap (λ (c : RouteNode F O). handler_of (locate c q) method) (at_node-some i cs)
      ∙ handler_of-node method (register call i) cs q
      ∙ ap (λ (x : Bytes). below method (register call i) cs (strip x q)) (prefix-register call i)
      ∙ go (strip i.prefix q) refl
    where
      go :
          (r : Option Bytes)
          → strip i.prefix q ≡ r
          → below method (register call i) cs r ≡ now (bytes_eq s q) (below method i cs r)
      go none e = rw (bytes_eq-strip-none _ s q _ sub e) refl
      go (some []) e =
          rw (bytes_eq-strip _ s q _ [] sub e)
            (find_handler-register call h method v w handled inserted asked i)
      go (some (b ∷ bs)) e = rw (bytes_eq-strip _ s q _ (b ∷ bs) sub e) refl

  -- A child of another label answers as before.
  pub skip_law :
      (c : RouteNode F O) (cs cs' : Children F O) (s : Bytes) (b : ℕ) (bs : Bytes)
      → s ≢ []
      → (info c).label ≢ first_byte s
      → handler_of (locate_child cs' (b ∷ bs)) method
        ≡ now (bytes_eq s (b ∷ bs)) (handler_of (locate_child cs (b ∷ bs)) method)
      → handler_of (locate_child (cons c cs') (b ∷ bs)) method
        ≡ now (bytes_eq s (b ∷ bs)) (handler_of (locate_child (cons c cs) (b ∷ bs)) method)
  skip_law c cs cs' s b bs hs other law =
      rw (handler_of-locate_child method c cs' b bs, handler_of-locate_child method c cs b bs)
        (elim (Bool-cases ((info c).label == b)) [
          | inl hit ↦
              rw (hit, bytes_eq_first s b bs hs (λ e. other (eq_of_== _ _ hit ∙ sym e))) refl
          | inr miss ↦ rw miss law
        ])

  -- The child that the path goes into.
  pub enter_law :
      (c c' : RouteNode F O) (cs : Children F O) (s : Bytes) (b : ℕ) (bs : Bytes)
      → s ≢ []
      → (info c).label ≡ first_byte s
      → (info c').label ≡ (info c).label
      → handler_of (locate c' (b ∷ bs)) method
        ≡ now (bytes_eq s (b ∷ bs)) (handler_of (locate c (b ∷ bs)) method)
      → handler_of (locate_child (cons c' cs) (b ∷ bs)) method
        ≡ now (bytes_eq s (b ∷ bs)) (handler_of (locate_child (cons c cs) (b ∷ bs)) method)
  enter_law c c' cs s b bs hs same kept law =
      rw (handler_of-locate_child method c' cs b bs, handler_of-locate_child method c cs b bs)
        (rw kept (elim (Bool-cases ((info c).label == b)) [
          | inl hit ↦ rw hit law
          | inr miss ↦ rw (miss, bytes_eq_first s b bs hs (λ e. ne_of_== _ _ miss (same ∙ e))) refl
        ]))

  pub new_child_law :
      (s : Bytes) (b : ℕ) (bs : Bytes)
      → s ≢ []
      → handler_of (locate_child (cons (leaf call s) nil) (b ∷ bs)) method
        ≡ now (bytes_eq s (b ∷ bs)) (handler_of (locate_child {F = F} {O = O} nil (b ∷ bs)) method)
  new_child_law s b bs hs =
      rw
        (
          handler_of-locate_child method (leaf call s) nil b bs,
          locate_child-nil {F = F} {O = O} method (b ∷ bs),
        )
        (rw (label-leaf call h method v w handled inserted asked s)
          (elim (Bool-cases (first_byte s == b)) [
            | inl hit ↦ rw hit (handler_of-leaf call h method v w handled inserted asked s (b ∷ bs))
            | inr miss ↦ rw (miss, bytes_eq_first s b bs hs (ne_of_== _ _ miss)) refl
          ]))
