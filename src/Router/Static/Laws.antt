-- ===== src/Router/Static/Laws.antt =====
-- whttp/router.go: one call of `insert` on a tree of static routes changes the answer for its own
-- path and method, and no other.
use wgo.Common.{ℕ, ◌≡◌, ◌≢◌, sym, ap, ◌∙◌, Option, some, [], ◌∷◌, Bytes, inl, inr, bytes_eq}
use native.Mathlib.Decide.{ℕ_discrete}
use wgo.Router.Methods.{Verb, verb_of}
use wgo.Router.Node.{RouteNode, node, Children, nil, cons, info, first_byte, lcp}
use wgo.Router.Insert.{Call, insert_node}
use wgo.Router.Prefix.{split_cases, strip, strip-lcp, drop-ne-nil, drop-length}
use wgo.Router.Static.{locate, locate_child, IsStatic, AreStatic}
use wgo.Router.Static.Insert.{handler_of, below, updated, handler_of-node}
use wgo.Router.Static.Shape.{
  lcp_pos, grown, label-insert_node, insert_node-split, insert_node-through, insert_node-end,
  grown-nil, grown-hit, grown-miss,
}
use wgo.Router.Static.Cases.{
  split_law, through_law, at_node_law, skip_law, enter_law, new_child_law,
}

module _ {F O : Type 0} (call : Call F O) (h : F) (method : Bytes) (v w : Verb)
    (handled : call.handler ≡ some h) (inserted : verb_of call.method ≡ some v)
    (asked : verb_of method ≡ some w) where
  mutual
    unfolding IsStatic

    law_at_node :
        (c : RouteNode F O) (s q : Bytes)
        → IsStatic c
        → lcp s (info c).prefix ≢ 0
        → handler_of (locate (insert_node call c s) q) method
          ≡ updated call h method v w handled inserted asked
              (bytes_eq s q)
              (handler_of (locate c q) method)
    law_at_node (node i cs) s q st pos = elim (split_cases s i.prefix) [
      | inl short ↦
          ap answer (insert_node-split call i cs s pos short)
          ∙ split_law call h method v w handled inserted asked i cs s q short
          ∙ back
      | inr (inl (full, longer)) ↦
          ap answer (insert_node-through call i cs s pos full longer)
          ∙ through_law call h method v w handled inserted asked i cs _ s q
              (strip-lcp s i.prefix full) (drop-ne-nil _ s longer)
              (λ b bs. law_at_children cs _ b bs st.2 (drop-ne-nil _ s longer))
          ∙ back
      | inr (inr (full, ends)) ↦
          ap answer (insert_node-end call i cs s pos full ends)
          ∙ at_node_law call h method v w handled inserted asked i cs s q
              (strip-lcp s i.prefix full ∙ ap some (drop-length _ s ends))
          ∙ back
    ]
      where
        answer : RouteNode F O → Option F
        answer c = handler_of (locate c q) method

        back :
            updated call h method v w handled inserted asked
              (bytes_eq s q)
              (below method i cs (strip i.prefix q))
            ≡ updated call h method v w handled inserted asked
                (bytes_eq s q)
                (handler_of (locate (node i cs) q) method)
        back =
            ap (updated call h method v w handled inserted asked (bytes_eq s q))
              (sym (handler_of-node method i cs q))

    law_at_children :
        (cs : Children F O) (s : Bytes) (b : ℕ) (bs : Bytes)
        → AreStatic cs
        → s ≢ []
        → handler_of (locate_child (grown call cs s) (b ∷ bs)) method
          ≡ updated call h method v w handled inserted asked
              (bytes_eq s (b ∷ bs))
              (handler_of (locate_child cs (b ∷ bs)) method)
    law_at_children nil s b bs st hs =
        ap (λ (x : Children F O). handler_of (locate_child x (b ∷ bs)) method) (grown-nil call s)
        ∙ new_child_law call h method v w handled inserted asked s b bs hs
    law_at_children (cons c cs) s b bs st hs = elim (ℕ_discrete (info c).label (first_byte s)) [
      | yes hit ↦
          let pos = lcp_pos s (info c).prefix hs st.2 (sym st.1 ∙ hit) in
          ap (λ (x : Children F O). handler_of (locate_child x (b ∷ bs)) method)
            (grown-hit call c cs s hit)
          ∙ enter_law call h method v w handled inserted asked c _ cs s b bs hs hit
              (label-insert_node call c s (st.1, st.2) pos) (law_at_node c s (b ∷ bs) st.0 pos)
      | no miss ↦
          ap (λ (x : Children F O). handler_of (locate_child x (b ∷ bs)) method)
            (grown-miss call c cs s miss)
          ∙ skip_law call h method v w handled inserted asked c cs _ s b bs hs miss
              (law_at_children cs s b bs st.3 hs)
    ]

  -- A call of `insert` with a handler, at a node of a tree of static routes that shares a first byte
  -- with the path, changes what the tree answers for exactly this path and this method, to the
  -- handler; every other path and method is answered as before.
  pub insert_node_law :
      (c : RouteNode F O) (s q : Bytes)
      → IsStatic c
      → lcp s (info c).prefix ≢ 0
      → handler_of (locate (insert_node call c s) q) method
        ≡ updated call h method v w handled inserted asked
            (bytes_eq s q)
            (handler_of (locate c q) method)
  insert_node_law c s q st pos = law_at_node c s q st pos
