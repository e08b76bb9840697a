-- ===== src/Router/Depth.antt =====
-- whttp/router.go: the field `depth`, from which a context gets its number of parameter values.
use wgo.Common.{
  none, some, Option-cases, sym, inr, ℕ, ◌+◌, ◌≡◌, ◌⊎◌, ◌≤◌, refl, Option, List, [], ◌∷◌, ◌++◌,
  Bytes, bytes, ltb, if◌then◌else◌, length, arith, inl,
}
use mathlib.Core.Path.{subst}
use wgo.Router.Static.Serve.{Route}
use wgo.Router.Static.Routes.{add_routes}
use wgo.Router.Insert.{
  add, new_router, slashed, Call, Router, insert, insert_all, calls_from, calls_in_name,
}

module _ {F O : Type 0} where
  -- The depth after the calls of `insert`.
  unfoldable depth_after : ℕ → List (Call F O) → ℕ
  depth_after d [] = d
  depth_after d (c ∷ cs) = depth_after (if ltb d 1 then length c.pnames else d) cs

  depth-insert_all :
      (r : Router F O) (cs : List (Call F O)) → (insert_all r cs).depth ≡ depth_after r.depth cs
  unfolding insert_all insert depth_after
  depth-insert_all r [] = refl
  depth-insert_all r (c ∷ cs) = depth-insert_all (insert r c) cs

length-append_one : {A : Type 0} (a : List A) (x : A) → length (a ++ x ∷ []) ≡ length a + 1
length-append_one [] x = omega arith
length-append_one (y ∷ a) x = omega (arith, length-append_one a x)

-- The depth is at most one, and no name has been read while it is zero.
abbrev IsShallow : ℕ → List Bytes → Type 0
IsShallow d pnames = (d ≤ 1) × ((d ≡ 1) ⊎ (length pnames ≡ 0))

-- A call without parameter names leaves the depth.
before_step : (d : ℕ) → (if ltb d 1 then 0 else d) ≡ d
before_step d = ground arith

named_step :
    (d : ℕ) (pnames : List Bytes) (name : Bytes)
    → IsShallow d pnames
    → (if ltb d 1 then length (pnames ++ name ∷ []) else d) ≡ 1
named_step d pnames name s = ground (arith, length-append_one pnames name)

module _ {F O : Type 0} (method : Bytes) (opts : Option O) (h : Option F) (ppath : Bytes) where
  mutual
    unfolding calls_from calls_in_name depth_after

    after_calls_from :
        (d : ℕ) (pnames : List Bytes) (done rest : Bytes)
        → IsShallow d pnames
        → depth_after d (calls_from method opts h ppath pnames done rest) ≤ 1
    after_calls_from d pnames done [] s = ground arith
    after_calls_from d pnames done (c ∷ rest) s = ground (
      arith,
      before_step d,
      after_calls_in_name d pnames done [] rest s,
      after_calls_from d pnames (done ++ c ∷ []) rest s,
      length-append_one pnames (bytes "_*"),
    )

    after_calls_in_name :
        (d : ℕ) (pnames : List Bytes) (done name rest : Bytes)
        → IsShallow d pnames
        → depth_after d (calls_in_name method opts h ppath pnames done name rest) ≤ 1
    after_calls_in_name d pnames done name [] s = ground (arith, length-append_one pnames name)
    after_calls_in_name d pnames done name (c ∷ rest) s = ground (
      arith,
      length-append_one pnames name,
      after_calls_in_name d pnames done (name ++ c ∷ []) rest s,
      after_calls_from 1 (pnames ++ name ∷ []) (done ++ b':' ∷ b'/' ∷ []) rest
          (omega arith, inl refl),
      named_step d pnames name s,
    )

-- The depth of a router, if the calls of `Add` ended in one.
abbrev pub depth_of : {F O : Type 0} → Option (Router F O) → ℕ
depth_of none = 0
depth_of (some r) = r.depth

module _ {F O : Type 0} where
  depth-add :
      (r : Router F O) (method path : Bytes) (opts : Option O) (h : Option F) (r' : Router F O)
      → r.depth ≤ 1
      → add r method path opts h ≡ some r'
      → r'.depth ≤ 1
  unfolding add
  depth-add r method [] opts h r' d e = cc
  depth-add r method (b ∷ bs) opts h r' d e =
      let path = slashed (b ∷ bs) in
      let cs = calls_from method opts h path [] [] path in
      let low : (insert_all r cs).depth ≤ 1 =
        subst (λ x. x ≤ 1) (sym (depth-insert_all r cs))
          (after_calls_from method opts h path r.depth [] [] path (d, inr refl)) in
      let same : insert_all r cs ≡ r' = cc in subst (λ (x : Router F O). x.depth ≤ 1) same low

  depth-add_routes :
      (ts : List (Route F O)) (r : Router F O) → r.depth ≤ 1 → depth_of (add_routes r ts) ≤ 1
  unfolding add_routes
  depth-add_routes [] r d = d
  depth-add_routes (t ∷ ts) r d =
      elim (Option-cases (add r t.method t.path t.opts (some t.handler))) [
        | inl e ↦ ground (arith, e)
        | inr (r', e) ↦ ground (arith, e, depth-add_routes ts r' (depth-add r _ _ _ _ r' d e))
      ]

  -- Whatever routes are added to a new router, with however many parameters, its depth is at most
  -- one: a context has room for at most one parameter value.
  pub depth-new_router : (ts : List (Route F O)) → depth_of (add_routes new_router ts) ≤ 1
  unfolding new_router
  depth-new_router ts = depth-add_routes ts new_router (omega arith)
