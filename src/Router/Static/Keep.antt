-- ===== src/Router/Static/Keep.antt =====
-- whttp/router.go: `insert` of a static path keeps a tree of static routes one.
use wgo.Common.{
  ℕ, zero, suc, ◌≡◌, ◌≢◌, refl, sym, ◌∙◌, [], ◌∷◌, Bytes, ◌==◌, length, arith, Bool-cases,
  Option-cases, inl, inr, ◌<◌, take, drop, ne_of_==, All, All-take, All-drop,
}
use native.Mathlib.Decide.{ℕ_discrete}
use mathlib.Core.Path.{subst}
use wgo.Router.Node.{
  skind, NodeInfo, RouteNode, node, Children, nil, cons, info, first_byte, lcp, new_node, add_child,
  add_handler, add_options,
}
use wgo.Router.Insert.{Call, register, leaf, at_node, split_node, insert_node}
use wgo.Router.Prefix.{drop-ne-nil, lcp-le, split_cases}
use wgo.Router.Static.{IsStatic, AreStatic}
use wgo.Router.Static.Shape.{
  grown, IsLabelled, lcp_pos, insert_node-split, insert_node-through, insert_node-end, grown-nil,
  grown-hit, grown-miss,
}

abbrev pub NoColon : Bytes → Type 0
NoColon s = All (λ b. b ≢ b':') s

NoColon-first : (s : Bytes) → NoColon s → s ≢ [] → first_byte s ≢ b':'
NoColon-first [] h hs = absurd (hs refl)
NoColon-first (b ∷ s) h hs = h.0

first_byte-take : (l : ℕ) (p : Bytes) → l ≢ 0 → first_byte (take l p) ≡ first_byte p
first_byte-take zero p h = absurd (h refl)
first_byte-take (suc l) [] h = refl
first_byte-take (suc l) (a ∷ p) h = refl

take-ne-nil : (l : ℕ) (p : Bytes) → l ≢ 0 → p ≢ [] → take l p ≢ []
take-ne-nil zero p h hp = absurd (h refl)
take-ne-nil (suc l) [] h hp = absurd (hp refl)
take-ne-nil (suc l) (a ∷ p) h hp = cc

lcp_pos_prefix : (s p : Bytes) → lcp s p ≢ 0 → p ≢ []
unfolding lcp
lcp_pos_prefix [] p h e = h refl
lcp_pos_prefix (b ∷ s) [] h e = h refl
lcp_pos_prefix (b ∷ s) (a ∷ p) h e = cc

module _ {F O : Type 0} (call : Call F O) (static : call.kind ≡ skind) where
  pub leaf-IsStatic :
      (s : Bytes) → NoColon s → s ≢ [] → IsStatic (leaf call s) × IsLabelled (leaf call s)
  unfolding leaf new_node register add_handler add_options IsStatic
  leaf-IsStatic s h hs = ((static, NoColon-first s h hs, tt, h), (refl, hs))

  split_node-IsStatic :
      (i : NodeInfo F O) (cs : Children F O) (s : Bytes)
      → IsStatic (node i cs)
      → IsLabelled (node i cs)
      → NoColon s
      → lcp s i.prefix ≢ 0
      → lcp s i.prefix < length i.prefix
      → IsStatic (split_node call i cs s (lcp s i.prefix))
        × IsLabelled (split_node call i cs s (lcp s i.prefix))
  unfolding split_node new_node add_child register add_handler add_options IsStatic
  split_node-IsStatic i cs s st lab h pos short =
      let l = lcp s i.prefix in
      let hd = drop-ne-nil l i.prefix short in
      let moved : IsStatic (
          new_node i.kind (drop l i.prefix) cs i.method_handler i.method_options i.ppath i.pnames) =
        (st.0, NoColon-first _ (All-drop _ l i.prefix st.3) hd, st.2, All-drop _ l i.prefix st.3) in
      let label : first_byte i.prefix ≢ b':' = NoColon-first _ st.3 lab.1 in
      let kept : All (λ b. b ≢ b':') (take l i.prefix) = All-take _ l i.prefix st.3 in
      let labelled : (first_byte i.prefix ≡ first_byte (take l i.prefix)) × (take l i.prefix ≢ []) =
        (sym (first_byte-take l i.prefix pos), take-ne-nil l i.prefix pos lab.1) in
      elim (Bool-cases (l == length s)) [
        | inl ends ↦ rw ends ((static, label, (moved, refl, hd, tt), kept), labelled)
        | inr goes_on ↦
            let rest =
              drop-ne-nil l s (omega (arith, lcp-le s i.prefix, ne_of_== l (length s) goes_on)) in
            let new = leaf-IsStatic (drop l s) (All-drop _ l s h) rest in
            rw goes_on
              ((refl, label, (moved, refl, hd, (new.0, new.1.0, new.1.1, tt)), kept), labelled)
      ]

  at_node-IsStatic :
      (i : NodeInfo F O) (cs : Children F O)
      → IsStatic (node i cs)
      → IsLabelled (node i cs)
      → IsStatic (at_node call i cs) × IsLabelled (at_node call i cs)
  unfolding at_node register add_handler add_options IsStatic
  at_node-IsStatic i cs st lab = elim (Option-cases call.handler) [
    | inl e ↦ rw e (st, lab)
    | inr (h, e) ↦ rw e (st, lab)
  ]

  mutual
    unfolding IsStatic

    kept_at_node :
        (c : RouteNode F O) (s : Bytes)
        → IsStatic c
        → IsLabelled c
        → NoColon s
        → lcp s (info c).prefix ≢ 0
        → IsStatic (insert_node call c s) × IsLabelled (insert_node call c s)
    kept_at_node (node i cs) s st lab h pos = elim (split_cases s i.prefix) [
      | inl short ↦
          subst (λ x. IsStatic x × IsLabelled x) (sym (insert_node-split call i cs s pos short))
            (split_node-IsStatic i cs s st lab h pos short)
      | inr (inl (full, longer)) ↦
          subst (λ x. IsStatic x × IsLabelled x)
            (sym (insert_node-through call i cs s pos full longer))
            (
              (
                st.0,
                st.1,
                grown-AreStatic cs _ st.2 (All-drop _ _ s h) (drop-ne-nil _ s longer),
                st.3,
              ),
              lab,
            )
      | inr (inr (full, ends)) ↦
          subst (λ x. IsStatic x × IsLabelled x) (sym (insert_node-end call i cs s pos full ends))
            (at_node-IsStatic i cs st lab)
    ]

    grown-AreStatic :
        (cs : Children F O) (s : Bytes)
        → AreStatic cs
        → NoColon s
        → s ≢ []
        → AreStatic (grown call cs s)
    grown-AreStatic nil s st h hs =
        let new = leaf-IsStatic s h hs in
        subst (λ x. AreStatic x) (sym (grown-nil call s)) (new.0, new.1.0, new.1.1, tt)
    grown-AreStatic (cons c cs) s st h hs = elim (ℕ_discrete (info c).label (first_byte s)) [
      | yes hit ↦
          let pos = lcp_pos s (info c).prefix hs st.2 (sym st.1 ∙ hit) in
          let kept = kept_at_node c s st.0 (st.1, st.2) h pos in
          subst (λ x. AreStatic x) (sym (grown-hit call c cs s hit))
            (kept.0, kept.1.0, kept.1.1, st.3)
      | no miss ↦
          subst (λ x. AreStatic x) (sym (grown-miss call c cs s miss))
            (st.0, st.1, st.2, grown-AreStatic cs s st.3 h hs)
    ]

  -- A call of `insert` for a static path, at a node of a static tree that shares a first byte with
  -- it, leaves every node static and labelled by the first byte of its prefix.
  pub insert_node-IsStatic :
      (c : RouteNode F O) (s : Bytes)
      → IsStatic c
      → IsLabelled c
      → NoColon s
      → lcp s (info c).prefix ≢ 0
      → IsStatic (insert_node call c s) × IsLabelled (insert_node call c s)
  insert_node-IsStatic c s st lab h pos = kept_at_node c s st lab h pos
