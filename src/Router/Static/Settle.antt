-- ===== src/Router/Static/Settle.antt =====
-- whttp/router.go: on a tree of static routes `Find` ends, and returns what the tree locates.
use wgo.Common.{
  ℕ, zero, suc, ◌+◌, ◌≡◌, ◌≢◌, refl, ap, ◌∙◌, Option, none, some, List, [], ◌∷◌, Bytes, ◌==◌, ◌&&◌,
  length, arith, Bool-cases, Option-cases, inl, inr, ◌≤◌,
}
use mathlib.Core.Path.{subst}
use wgo.Router.Node.{
  Kind, skind, pkind, NodeInfo, RouteNode, node, Children, nil, cons, info, find_child, kind_eq,
}
use wgo.Router.Find.{
  missing, top, param, Search, Next, go, find_from, step, step_child, resume, find,
}
use wgo.Router.Prefix.{strip, lcp_of_strip}
use wgo.Router.Static.{
  locate-strip, locate-strip-none, locate, locate_child, IsStatic, AreStatic, outcome,
}
use wgo.Router.Static.Find.{
  Saved, resume-missing, param-missing, round, finish-static, locate_child-find_child,
}

length_pos : (p : Bytes) → p ≢ [] → 1 ≤ length p
length_pos [] h = absurd (h refl)
length_pos (a ∷ p) h = omega arith

module _ {F O : Type 0} where
  find_child-IsStatic :
      (cs : Children F O) (b : ℕ) (t : Kind) (c : RouteNode F O)
      → AreStatic cs
      → find_child cs b t ≡ some c
      → IsStatic c × ((info c).prefix ≢ [])
  unfolding find_child IsStatic
  find_child-IsStatic nil b t c h e = cc
  find_child-IsStatic (cons d cs) b t c h e =
      elim (Bool-cases ((info d).label == b && kind_eq (info d).kind t)) [
        | inl hit ↦
            let same : d ≡ c = ground arith in
            subst (λ x. IsStatic x × ((info x).prefix ≢ [])) same (h.0, h.2)
        | inr other ↦ find_child-IsStatic cs b t c h.3 (ground arith)
      ]

  abbrev state :
      RouteNode F O → Bytes → ℕ → Kind → Option (RouteNode F O) → Bytes → List Bytes → Search F O
  state c search n nk nn ns pv = record {
    cn = c;
    search = search;
    n = n;
    nk = nk;
    nn = nn;
    ns = ns;
    pvalues = pv;
  }

-- The run from a node with a non-empty prefix, on `fuel`.
abbrev Settles : (F O : Type 0) → Bytes → ℕ → Type 0
Settles F O method fuel =
    (c : RouteNode F O) (b : ℕ) (bs : Bytes) (n : ℕ) (nk : Kind) (nn : Option (RouteNode F O))
    (ns : Bytes) (pv : List Bytes)
    → IsStatic c
    → (info c).prefix ≢ []
    → Saved (state c (b ∷ bs) n nk nn ns pv)
    → length bs + 6 ≤ fuel
    → find_from fuel method (go top (state c (b ∷ bs) n nk nn ns pv))
      ≡ some (outcome method pv (locate c (b ∷ bs)))

module _ {F O : Type 0} where
  module _ (method : Bytes) where
    resume-missing_of_le :
        (fuel : ℕ) (s : Search F O)
        → Saved s
        → 4 ≤ fuel
        → find_from fuel method (resume s) ≡ some missing
    resume-missing_of_le (suc (suc (suc (suc fuel)))) s saved h = resume-missing method fuel s saved
    resume-missing_of_le _ s saved h = absurd (omega arith)

    param-missing_of_le :
        (fuel : ℕ) (s : Search F O)
        → IsStatic s.cn
        → Saved s
        → 4 ≤ fuel
        → find_from fuel method (go param s) ≡ some missing
    param-missing_of_le (suc (suc (suc (suc fuel)))) s hc saved h =
        param-missing method fuel s hc saved
    param-missing_of_le _ s hc saved h = absurd (omega arith)

    child-Settles :
        (fuel : ℕ) (i : NodeInfo F O) (cs : Children F O) (rest : Bytes) (n : ℕ) (nk : Kind)
        (nn : Option (RouteNode F O)) (ns : Bytes) (pv : List Bytes)
        → Settles F O method fuel
        → IsStatic (node i cs)
        → Saved (state (node i cs) rest n nk nn ns pv)
        → 4 ≤ fuel
        → length rest + 5 ≤ fuel
        → find_from fuel method (step_child method (state (node i cs) rest n nk nn ns pv))
          ≡ some (
              outcome method pv
                (elim rest [ [] ↦ some (node i cs) | b ∷ bs ↦ locate_child cs (b ∷ bs) ]))
    unfolding step_child find_from IsStatic outcome
    child-Settles fuel i cs [] n nk nn ns pv ih h saved h4 h5 =
        ap some (finish-static method (node i cs) pv h)
    child-Settles fuel i cs (d ∷ ds) n nk nn ns pv ih h saved h4 h5 =
        elim (Option-cases (find_child cs d skind)) [
          | inl e ↦ ground (
            arith,
            e,
            locate_child-find_child cs d ds h.2,
            param-missing_of_le fuel (state (node i cs) (d ∷ ds) n nk nn ns pv) h saved h4,
          )
          | inr (c, e) ↦
              let (hc, hp) = find_child-IsStatic cs d skind c h.2 e in
              ground (
                arith,
                e,
                locate_child-find_child cs d ds h.2,
                ih c d ds n nk nn ns pv hc hp saved (omega arith),
                ih c d ds n pkind (some (node i cs)) (d ∷ ds) pv hc hp
                    (inr (refl, node i cs, refl, h)) (omega arith),
              )
        ]

    -- A round at a node, and the rest of the run.
    descend :
        (fuel : ℕ) (i : NodeInfo F O) (cs : Children F O) (b : ℕ) (bs : Bytes) (n : ℕ) (nk : Kind)
        (nn : Option (RouteNode F O)) (ns : Bytes) (pv : List Bytes)
        → Settles F O method fuel
        → IsStatic (node i cs)
        → Saved (state (node i cs) (b ∷ bs) n nk nn ns pv)
        → 4 ≤ fuel
        → length bs + 6 ≤ fuel + length i.prefix
        → find_from (suc fuel) method (go top (state (node i cs) (b ∷ bs) n nk nn ns pv))
          ≡ some (outcome method pv (locate (node i cs) (b ∷ bs)))
    unfolding find_from step outcome
    descend fuel i cs b bs n nk nn ns pv ih h saved h4 room =
        ap (λ (x : Next F O). find_from fuel method x) (round method i cs b bs n nk nn ns pv h)
        ∙ (elim (Option-cases (strip i.prefix (b ∷ bs))) [
          | inl e ↦
              rw (e, locate-strip-none i cs (b ∷ bs) e)
                (resume-missing_of_le fuel (state (node i cs) (b ∷ bs) n nk nn ns pv) saved h4)
          | inr (rest, e) ↦
              rw (e, locate-strip i cs (b ∷ bs) rest e)
                (child-Settles fuel i cs rest n nk nn ns pv ih h saved h4
                  (omega (arith, lcp_of_strip i.prefix (b ∷ bs) rest e)))
        ])

    settles : (fuel : ℕ) → Settles F O method fuel
    settles zero c b bs n nk nn ns pv h hp saved room = absurd (omega arith)
    settles (suc fuel) (node i cs) b bs n nk nn ns pv h hp saved room =
        descend fuel i cs b bs n nk nn ns pv (settles fuel) h saved (omega arith)
          (omega (arith, length_pos i.prefix hp))

    -- On a static tree and a non-empty path, `Find` ends within as many steps as the path has
    -- bytes and six more, and returns the node that the tree locates with its handler for the
    -- method, or not found if there is none.
    pub find-static :
        (fuel depth : ℕ) (t : RouteNode F O) (b : ℕ) (bs : Bytes) (pv : List Bytes)
        → IsStatic t
        → length bs + 7 ≤ fuel
        → find fuel (record { tree = t; depth = depth }) method (b ∷ bs) pv
          ≡ some (outcome method pv (locate t (b ∷ bs)))
    unfolding find
    find-static zero depth t b bs pv h room = absurd (omega arith)
    find-static (suc fuel) depth (node i cs) b bs pv h room =
        descend fuel i cs b bs 0 skind none [] pv (settles fuel) h (inl refl) (omega arith)
          (omega arith)
