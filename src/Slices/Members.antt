-- ===== src/Slices/Members.antt =====
-- utils/slice.go: which values the results have.
use wgo.Common.{
  append_step, append_nil, ◌≡◌, refl, sym, ap, ◌∙◌, Bool, true, false, not, ◌&&◌, List, [], ◌∷◌,
  ◌++◌, if◌then◌else◌, arith, All, Bool-cases, inl, inr,
}
use mathlib.Core.Path.{subst}
use wgo.Slices.{
  in_slice, purge_from, purge_slice, slice_diff, slice_intersect, unique_from, slice_unique,
  slice_filter,
}

module _ {A : Type 0} (same : A → A → Bool) where
  -- `SliceIntersect` is `SliceDiff`: no value of its result is in the second slice.
  intersect-diff :
      (a b : List A)
      → (slice_intersect same a b ≡ slice_diff same a b)
        × All (λ v. in_slice same v b ≡ false) (slice_intersect same a b)
  unfolding slice_intersect slice_diff
  intersect-diff [] b = (refl, tt)
  intersect-diff (v ∷ a) b = elim (Bool-cases (in_slice same v b)) [
    | inl inside ↦ rw inside (intersect-diff a b)
    | inr outside ↦ let (e, h) = intersect-diff a b in rw outside (ap (λ z. v ∷ z) e, (outside, h))
  ]

  purge_from-filter :
      (v : A) (sl nsl : List A)
      → purge_from same v sl nsl ≡ nsl ++ slice_filter sl (λ x. not (same x v))
  unfolding purge_from slice_filter
  purge_from-filter v [] nsl = sym (append_nil nsl)
  purge_from-filter v (x ∷ sl) nsl = ground (
    arith,
    purge_from-filter v sl nsl,
    purge_from-filter v sl (nsl ++ x ∷ []),
    append_step nsl x (slice_filter sl (λ x. not (same x v))),
  )

  filter-All : (a : A → Bool) (sl : List A) → All (λ x. a x ≡ true) (slice_filter sl a)
  unfolding slice_filter
  filter-All a [] = tt
  filter-All a (x ∷ sl) = elim (Bool-cases (a x)) [
    | inl kept ↦ rw kept (kept, filter-All a sl)
    | inr dropped ↦ rw dropped (filter-All a sl)
  ]

  -- `PurgeSlice` keeps, in order, the values that differ from the given one, and those only.
  pub purge_slice-filter :
      (v : A) (sl : List A)
      → (purge_slice same v sl ≡ slice_filter sl (λ x. not (same x v)))
        × All (λ x. not (same x v) ≡ true) (purge_slice same v sl)
  unfolding purge_slice
  purge_slice-filter v sl =
      let e = purge_from-filter v sl [] in
      (
        e,
        subst (λ z. All (λ x. not (same x v) ≡ true) z) (sym e)
            (filter-All (λ x. not (same x v)) sl),
      )

  in_slice-append :
      (v x : A) (a : List A)
      → in_slice same v (a ++ x ∷ []) ≡ (if in_slice same v a then true else same x v)
  unfolding in_slice
  in_slice-append v x [] = ground arith
  in_slice-append v x (y ∷ a) = ground (arith, in_slice-append v x a)

  -- No value stands behind a value it is the same as.
  unfoldable pub distinct : List A → List A → Bool
  distinct seen [] = true
  distinct seen (x ∷ xs) = not (in_slice same x seen) && distinct (seen ++ x ∷ []) xs

  distinct-append :
      (seen a : List A) (x : A)
      → distinct seen a ≡ true
      → in_slice same x (seen ++ a) ≡ false
      → distinct seen (a ++ x ∷ []) ≡ true
  unfolding distinct
  distinct-append seen [] x h new = rw (← append_nil seen, new) refl
  distinct-append seen (y ∷ a) x h new =
      ground (arith, h, distinct-append (seen ++ y ∷ []) a x, append_step seen y a, new)

  unique_from-distinct :
      (slice u : List A) → distinct [] u ≡ true → distinct [] (unique_from same slice u) ≡ true
  unfolding unique_from
  unique_from-distinct [] u h = h
  unique_from-distinct (v ∷ slice) u h = ground (
    arith,
    unique_from-distinct slice u h,
    unique_from-distinct slice (u ++ v ∷ []),
    distinct-append [] u v h,
  )

  in_slice-unique_from :
      (slice u : List A) (v : A)
      → in_slice same v u ≡ true
      → in_slice same v (unique_from same slice u) ≡ true
  unfolding unique_from
  in_slice-unique_from [] u v h = h
  in_slice-unique_from (x ∷ slice) u v h = ground (
    arith,
    in_slice-unique_from slice u v h,
    in_slice-unique_from slice (u ++ x ∷ []) v,
    in_slice-append v x u,
    h,
  )

  unique_from-old :
      (x : A) (slice u : List A)
      → in_slice same x u ≡ true
      → unique_from same (x ∷ slice) u ≡ unique_from same slice u
  unfolding unique_from
  unique_from-old x slice u e = rw e refl

  unique_from-new :
      (x : A) (slice u : List A)
      → in_slice same x u ≡ false
      → unique_from same (x ∷ slice) u ≡ unique_from same slice (u ++ x ∷ [])
  unfolding unique_from
  unique_from-new x slice u e = rw e refl

  unique_from_complete :
      (refl_same : (x : A) → same x x ≡ true) (slice u : List A)
      → All (λ v. in_slice same v (unique_from same slice u) ≡ true) slice
  unique_from_complete refl_same [] u = tt
  unique_from_complete refl_same (x ∷ slice) u = elim (Bool-cases (in_slice same x u)) [
    | inl old ↦
        subst (λ z. All (λ v. in_slice same v z ≡ true) (x ∷ slice))
          (sym (unique_from-old x slice u old))
          (in_slice-unique_from slice u x old, unique_from_complete refl_same slice u)
    | inr new ↦
        subst (λ z. All (λ v. in_slice same v z ≡ true) (x ∷ slice))
          (sym (unique_from-new x slice u new))
          (
            in_slice-unique_from slice (u ++ x ∷ []) x
                (in_slice-append x x u ∙ (rw (new, refl_same x) refl)),
            unique_from_complete refl_same slice (u ++ x ∷ []),
          )
  ]

  -- Where `==` is reflexive, `SliceUnique` returns no value twice and every value of the slice.
  pub slice_unique-distinct :
      (refl_same : (x : A) → same x x ≡ true) (slice : List A)
      → (distinct [] (slice_unique same slice) ≡ true)
        × All (λ v. in_slice same v (slice_unique same slice) ≡ true) slice
  unfolding slice_unique distinct
  slice_unique-distinct refl_same slice =
      (unique_from-distinct slice [] refl, unique_from_complete refl_same slice [])
