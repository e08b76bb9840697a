-- ===== src/Rest/Init/Made.antt =====
-- Init in rest/middlewares.go: the conditions that it makes of a parameter.
use wgo.Common.{
  ℕ, ◌≡◌, refl, inl, inr, Bool, true, false, ◌||◌, Option, none, some, List, [], ◌∷◌, ◌++◌, map,
  Bytes, has_byte, cut, split, if◌then◌else◌, Bool-cases, arith,
}
use wgo.Rest.{
  Condition, Leaf, Value, leaf, CType, is_type, not_type, like_type, gt_type, lt_type, or_type,
  join_type, fill, condition_of, leaf_text, value_text, nested,
}
use wgo.Rest.Query.{ctype_by_prefix, merge_each, set_param_conds}
use wgo.Rest.Init.{
  is_empty, or_conditions, join_condition, plain_condition, conditions_for, set_all_conds, one,
}

-- The types that a prefix gives, or that Init uses itself: all that take any value.
abbrev pub takes_any : CType → Bool
takes_any is_type = true
takes_any not_type = true
takes_any like_type = true
takes_any gt_type = true
takes_any lt_type = true
takes_any or_type = true
takes_any join_type = true
takes_any _ = false

pub ctype_by_prefix-takes : (b : ℕ) → takes_any (ctype_by_prefix b) ≡ true
unfolding ctype_by_prefix
ctype_by_prefix-takes b = ground arith

module _ {V : Type 0} where
  pub condition_of-made :
      (as_text : V → Option Bytes) (ct : CType) (k : Bytes) (v first : V) (cs : List V)
      → takes_any ct ≡ true
      → is_empty k ≡ false
      → (con : Condition V) × (condition_of as_text ct k v first cs ≡ some (some con))
  unfolding condition_of fill
  condition_of-made as_text is_type (b ∷ bs) v first cs t h = (_, refl)
  condition_of-made as_text not_type (b ∷ bs) v first cs t h = (_, refl)
  condition_of-made as_text like_type (b ∷ bs) v first cs t h = (_, refl)
  condition_of-made as_text gt_type (b ∷ bs) v first cs t h = (_, refl)
  condition_of-made as_text lt_type (b ∷ bs) v first cs t h = (_, refl)
  condition_of-made as_text or_type (b ∷ bs) v first cs t h = (_, refl)
  condition_of-made as_text join_type (b ∷ bs) v first cs t h = (_, refl)
  condition_of-made as_text ct [] v first cs t h = absurd (cc)
  condition_of-made as_text ct k v first cs t h = absurd (cc)

module _ {I : Type 0} where
  abbrev pub Made : Option (List (Option (Condition (Value I)))) → Type 0
  Made o = (cons : List (Condition (Value I))) × (o ≡ some (map some cons))

  or_conditions-Made :
      (ct : CType) (k : Bytes) (cv : Leaf I) (os : List Bytes)
      → takes_any ct ≡ true
      → is_empty k ≡ false
      → Made (or_conditions ct k cv os)
  unfolding or_conditions
  or_conditions-Made ct k cv [] t h = ([], refl)
  or_conditions-Made ct k cv (of ∷ os) t h =
      let (cons, e) = or_conditions-Made ct k cv os t h in
      elim (Bool-cases (is_empty of)) [
        | inl gone ↦ rw gone (cons, e)
        | inr there ↦
            let (inner, i) = condition_of-made leaf_text ct k cv cv (cv ∷ []) t h in
            let v : Value I = nested inner in
            let (con, c) = condition_of-made value_text or_type of v v (v ∷ []) refl there in
            (con ∷ cons, rw (there, i, c, e) refl)
      ]

  join_condition-Made :
      (ct : CType) (k : Bytes) (cv : Leaf I) (table : Bytes) (field : Option Bytes)
      → takes_any ct ≡ true
      → is_empty k ≡ false
      → Made (one (join_condition ct k cv table field))
  unfolding join_condition
  join_condition-Made ct k cv table none t h =
      let (con, c) = condition_of-made value_text ct k (leaf cv) (leaf cv) (leaf cv ∷ []) t h in
      (con ∷ [], rw c refl)
  join_condition-Made ct k cv table (some field) t h =
      elim (Bool-cases (is_empty table || is_empty field)) [
        | inl gone ↦
            let (con, c) =
              condition_of-made value_text ct k (leaf cv) (leaf cv) (leaf cv ∷ []) t h in
            (con ∷ [], rw (gone, c) refl)
        | inr there ↦
            let (inner, i) =
              condition_of-made leaf_text ct field cv cv (cv ∷ []) t (ground (arith, there)) in
            let v : Value I = nested inner in
            let (con, c) =
              condition_of-made value_text join_type table v v (v ∷ []) refl
                (ground (arith, there)) in
            (con ∷ [], rw (there, i, c) refl)
      ]

  pub conditions_for-Made :
      (ct : CType) (k : Bytes) (cv : Leaf I)
      → takes_any ct ≡ true
      → is_empty k ≡ false
      → Made (conditions_for ct k cv)
  unfolding conditions_for plain_condition
  conditions_for-Made ct k cv t h = elim (Bool-cases (has_byte b'|' k)) [
    | inl several ↦ rw several (or_conditions-Made ct k cv (split b'|' k) t h)
    | inr single ↦ rw single (join_condition-Made ct k cv (cut b'.' k).0 (cut b'.' k).1 t h)
  ]

  pub set_all_conds-none :
      (ct : CType) (cv : Leaf I) (conds : List (Condition (Value I)))
      → (cons : List (Option (Condition (Value I)))) × (conditions_for ct [] cv ≡ some cons)
        × (set_all_conds cons conds ≡ none)
  unfolding conditions_for set_all_conds set_param_conds plain_condition join_condition cut
      condition_of
  set_all_conds-none ct cv conds = (none ∷ [], refl, refl)

  -- The same without a panic.

  abbrev pub set_cond :
      Condition (Value I) → List (Condition (Value I)) → List (Condition (Value I))
  set_cond con conds =
      if (merge_each con conds).1
      then (merge_each con conds).0
      else (merge_each con conds).0 ++ con ∷ []

  unfoldable pub set_conds :
      List (Condition (Value I)) → List (Condition (Value I)) → List (Condition (Value I))
  set_conds [] conds = conds
  set_conds (con ∷ cons) conds = set_conds cons (set_cond con conds)

  pub set_all_conds-set_conds :
      (cons conds : List (Condition (Value I)))
      → set_all_conds (map some cons) conds ≡ some (set_conds cons conds)
  unfolding set_all_conds set_param_conds set_conds
  set_all_conds-set_conds [] conds = refl
  set_all_conds-set_conds (con ∷ cons) conds = set_all_conds-set_conds cons (set_cond con conds)
