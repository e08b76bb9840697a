-- ===== src/Router/Walk/Parts.antt =====
-- whttp/router.go: what the parts of a step of `Find` give: prefixes, segments and children.
use wgo.Common.{
  ℕ, ◌≡◌, ◌≢◌, inl, inr, refl, sym, ap, ◌∙◌, true, ◌&&◌, some, [], ◌∷◌, ◌++◌, Bytes, ◌==◌, eq_of_==,
  ne_of_==, length, drop, All, arith, Bool-cases,
}
use wgo.Router.Node.{
  Kind, skind, pkind, akind, kind_eq, RouteNode, Children, nil, cons, lcp, info, find_child,
  find_child_by_kind,
}
use wgo.Router.Find.{segment, after_segment}
use wgo.Router.Walk.{IsChild}

pub lcp-prefix : (s p : Bytes) → lcp s p ≡ length p → s ≡ p ++ drop (lcp s p) s
unfolding lcp
lcp-prefix [] [] h = refl
lcp-prefix [] (b ∷ p) h = absurd (omega arith)
lcp-prefix (a ∷ s) [] h = refl
lcp-prefix (a ∷ s) (b ∷ p) h = elim (Bool-cases (a == b)) [
  | inl e ↦
      let ih = lcp-prefix s p (ground (arith, h, e)) in
      rw e (ap (λ (x : ℕ). x ∷ s) (eq_of_== a b e) ∙ ap (λ (x : Bytes). b ∷ x) ih)
  | inr e ↦ absurd (ground (arith, h, e))
]

pub segment-split : (s : Bytes) → s ≡ segment s ++ after_segment s
unfolding segment after_segment
segment-split [] = refl
segment-split (b ∷ bs) = ground (arith, segment-split bs)

pub segment-All : (s : Bytes) → All (λ b. b ≢ b'/') (segment s)
unfolding segment
segment-All [] = tt
segment-All (b ∷ bs) = elim (Bool-cases (b == b'/')) [
  | inl e ↦ rw e tt
  | inr e ↦ rw e (ne_of_== b b'/' e, segment-All bs)
]

kind_eq→eq : (k t : Kind) → kind_eq k t ≡ true → k ≡ t
unfolding kind_eq
kind_eq→eq skind skind h = refl
kind_eq→eq skind pkind h = cc h
kind_eq→eq skind akind h = cc h
kind_eq→eq pkind skind h = cc h
kind_eq→eq pkind pkind h = refl
kind_eq→eq pkind akind h = cc h
kind_eq→eq akind skind h = cc h
kind_eq→eq akind pkind h = cc h
kind_eq→eq akind akind h = refl

module _ {F O : Type 0} where
  pub find_child_by_kind_lem :
      (cs : Children F O) (t : Kind) (d : RouteNode F O)
      → find_child_by_kind cs t ≡ some d
      → IsChild d cs × ((info d).kind ≡ t)
  unfolding find_child_by_kind
  find_child_by_kind_lem nil t d h = cc h
  find_child_by_kind_lem (cons c cs) t d h = elim (Bool-cases (kind_eq (info c).kind t)) [
    | inl e ↦
        let same : c ≡ d = ground (arith, h, e) in
        (
          inl same,
          ap (λ (x : RouteNode F O). (info x).kind) (sym same) ∙ kind_eq→eq (info c).kind t e,
        )
    | inr e ↦ let r = find_child_by_kind_lem cs t d (ground (arith, h, e)) in (inr r.0, r.1)
  ]

  pub find_child_lem :
      (cs : Children F O) (l : ℕ) (t : Kind) (d : RouteNode F O)
      → find_child cs l t ≡ some d
      → IsChild d cs × ((info d).kind ≡ t) × ((info d).label ≡ l)
  unfolding find_child
  find_child_lem nil l t d h = cc h
  find_child_lem (cons c cs) l t d h =
      elim (Bool-cases ((info c).label == l && kind_eq (info c).kind t)) [
        | inl e ↦
            let same : c ≡ d = ground (arith, h, e) in
            let label_eq : (info c).label ≡ l = ground (arith, e) in
            let kind_same : kind_eq (info c).kind t ≡ true = ground (arith, e) in
            (
              inl same,
              ap (λ (x : RouteNode F O). (info x).kind) (sym same)
                  ∙ kind_eq→eq (info c).kind t kind_same,
              ap (λ (x : RouteNode F O). (info x).label) (sym same) ∙ label_eq,
            )
        | inr e ↦ let r = find_child_lem cs l t d (ground (arith, h, e)) in (inr r.0, r.1, r.2)
      ]
