-- ===== src/Rest/Init/Slots.antt =====
-- SetParamConds in rest/query.go: what a row of conditions leaves of each field.
use wgo.Common.{
  ◌≡◌, ◌∙◌, ap, refl, inl, inr, true, false, Option, none, some, List, [], ◌∷◌, Bytes, bytes_eq,
  bytes_eq_iff, bytes_eq_refl, if◌then◌else◌, Bool-cases, All,
}
use wgo.Rest.{
  Condition, Value, CType, is_type, not_type, like_type, gt_type, lt_type, or_type, join_type,
  range_type, order_type, raw_type, no_type, over, merge,
}
use wgo.Rest.Query.{merge_each}
use wgo.Rest.Init.Made.{set_cond, set_conds}

other : (con ec f : Bytes) → bytes_eq ec con ≡ false → bytes_eq ec f ≡ true → bytes_eq con f ≡ false
other con ec f new at_f = elim (Bool-cases (bytes_eq con f)) [
  | inl same ↦ absurd (cc ((bytes_eq_iff con f).0 same, new))
  | inr away ↦ away
]

module _ {I : Type 0} where
  -- What a condition wants of its field in the way of the type.
  abbrev pub slot : CType → Condition (Value I) → Option (Value I)
  slot is_type c = c.is
  slot not_type c = c.not
  slot or_type c = c.or
  slot like_type c = c.like
  slot gt_type c = c.gt
  slot lt_type c = c.lt
  slot join_type c = c.join
  slot range_type c = c.range
  slot order_type c = c.order
  slot raw_type c = none
  slot no_type c = none

  slot-merge :
      (t : CType) (c o : Condition (Value I)) → slot t (merge c o) ≡ over (slot t o) (slot t c)
  unfolding merge
  slot-merge is_type c o = refl
  slot-merge not_type c o = refl
  slot-merge or_type c o = refl
  slot-merge like_type c o = refl
  slot-merge gt_type c o = refl
  slot-merge lt_type c o = refl
  slot-merge join_type c o = refl
  slot-merge range_type c o = refl
  slot-merge order_type c o = refl
  slot-merge raw_type c o = refl
  slot-merge no_type c o = refl

  -- What the first condition of the field wants.
  unfoldable pub slot_at : CType → Bytes → List (Condition (Value I)) → Option (Value I)
  slot_at t f [] = none
  slot_at t f (c ∷ cs) = if bytes_eq c.field f then slot t c else slot_at t f cs

  -- The last that is wanted of the field, of conditions in a row.
  unfoldable pub last_slot :
      CType → Bytes → List (Condition (Value I)) → Option (Value I) → Option (Value I)
  last_slot t f [] old = old
  last_slot t f (c ∷ cs) old =
      last_slot t f cs (if bytes_eq c.field f then over (slot t c) old else old)

  -- No two conditions have the same field.
  abbrev pub Distinct : List (Condition (Value I)) → Type 0
  Distinct [] = Unit
  Distinct (c ∷ cs) = All (λ d. bytes_eq d.field c.field ≡ false) cs × Distinct cs

  slot_at-merge_each :
      (t : CType) (f : Bytes) (con : Condition (Value I)) (conds : List (Condition (Value I)))
      → bytes_eq con.field f ≡ false
      → slot_at t f (merge_each con conds).0 ≡ slot_at t f conds
  unfolding slot_at merge_each merge
  slot_at-merge_each t f con [] h = refl
  slot_at-merge_each t f con (ec ∷ conds) h = elim (Bool-cases (bytes_eq ec.field con.field)) [
    | inl same ↦
        let e = (bytes_eq_iff ec.field con.field).0 same in
        let other : bytes_eq ec.field f ≡ false = ap (λ g. bytes_eq g f) e ∙ h in
        rw (same, other) (slot_at-merge_each t f con conds h)
    | inr new ↦ rw (new, slot_at-merge_each t f con conds h) refl
  ]

  over-none : (o : Option (Value I)) → o ≡ over o none
  over-none none = refl
  over-none (some v) = refl

  set_cond-new :
      (con ec : Condition (Value I)) (conds : List (Condition (Value I)))
      → bytes_eq ec.field con.field ≡ false
      → set_cond con (ec ∷ conds) ≡ ec ∷ set_cond con conds
  unfolding merge_each
  set_cond-new con ec conds new = elim (Bool-cases (merge_each con conds).1) [
    | inl found ↦ rw (new, found) refl
    | inr none_found ↦ rw (new, none_found) refl
  ]

  slot_at-set_cond :
      (t : CType) (f : Bytes) (con : Condition (Value I)) (conds : List (Condition (Value I)))
      → slot_at t f (set_cond con conds) ≡ (
          if bytes_eq con.field f then over (slot t con) (slot_at t f conds) else slot_at t f conds)
  unfolding slot_at merge_each merge
  slot_at-set_cond t f con [] =
      ap (λ o. if bytes_eq con.field f then o else none) (over-none (slot t con))
  slot_at-set_cond t f con (ec ∷ conds) = elim (Bool-cases (bytes_eq ec.field con.field)) [
    | inl same ↦
        let e = ap (λ g. bytes_eq g f) ((bytes_eq_iff ec.field con.field).0 same) in
        elim (Bool-cases (bytes_eq con.field f)) [
          | inl here ↦ let at_f = e ∙ here in rw (same, here, at_f) (slot-merge t ec con)
          | inr away ↦
              let not_at_f = e ∙ away in
              rw (same, away, not_at_f) (slot_at-merge_each t f con conds away)
        ]
    | inr new ↦
        ap (slot_at t f) (set_cond-new con ec conds new) ∙ elim (Bool-cases (bytes_eq ec.field f)) [
          | inl at_f ↦
              let con_away = other con.field ec.field f new at_f in rw (at_f, con_away) refl
          | inr not_at_f ↦ rw not_at_f (slot_at-set_cond t f con conds)
        ]
  ]

  pub slot_at-set_conds :
      (t : CType) (f : Bytes) (cons conds : List (Condition (Value I)))
      → slot_at t f (set_conds cons conds) ≡ last_slot t f cons (slot_at t f conds)
  unfolding set_conds last_slot
  slot_at-set_conds t f [] conds = refl
  slot_at-set_conds t f (con ∷ cons) conds =
      slot_at-set_conds t f cons (set_cond con conds)
      ∙ ap (last_slot t f cons) (slot_at-set_cond t f con conds)

  Fresh : Bytes → List (Condition (Value I)) → Type 0
  Fresh f conds = All (λ d. bytes_eq d.field f ≡ false) conds

  merge_each-Fresh :
      (f : Bytes) (con : Condition (Value I)) (conds : List (Condition (Value I)))
      → Fresh f conds
      → Fresh f (merge_each con conds).0
  unfolding merge_each Fresh merge
  merge_each-Fresh f con [] h = tt
  merge_each-Fresh f con (ec ∷ conds) h = elim (Bool-cases (bytes_eq ec.field con.field)) [
    | inl same ↦ rw same (h.0, merge_each-Fresh f con conds h.1)
    | inr new ↦ rw new (h.0, merge_each-Fresh f con conds h.1)
  ]

  set_cond-Fresh :
      (f : Bytes) (con : Condition (Value I)) (conds : List (Condition (Value I)))
      → bytes_eq con.field f ≡ false
      → Fresh f conds
      → Fresh f (set_cond con conds)
  unfolding merge_each Fresh merge
  set_cond-Fresh f con [] away h = (away, tt)
  set_cond-Fresh f con (ec ∷ conds) away h = elim (Bool-cases (bytes_eq ec.field con.field)) [
    | inl same ↦ rw same (h.0, merge_each-Fresh f con conds h.1)
    | inr new ↦ rw (set_cond-new con ec conds new) (h.0, set_cond-Fresh f con conds away h.1)
  ]

  merge_each-Distinct :
      (con : Condition (Value I)) (conds : List (Condition (Value I)))
      → Distinct conds
      → Distinct (merge_each con conds).0
  unfolding merge_each Fresh merge
  merge_each-Distinct con [] h = tt
  merge_each-Distinct con (ec ∷ conds) h = elim (Bool-cases (bytes_eq ec.field con.field)) [
    | inl same ↦
        rw same (merge_each-Fresh ec.field con conds h.0, merge_each-Distinct con conds h.1)
    | inr new ↦ rw new (merge_each-Fresh ec.field con conds h.0, merge_each-Distinct con conds h.1)
  ]

  set_cond-Distinct :
      (con : Condition (Value I)) (conds : List (Condition (Value I)))
      → Distinct conds
      → Distinct (set_cond con conds)
  unfolding merge_each Fresh merge
  set_cond-Distinct con [] h = (tt, tt)
  set_cond-Distinct con (ec ∷ conds) h = elim (Bool-cases (bytes_eq ec.field con.field)) [
    | inl same ↦
        rw same (merge_each-Fresh ec.field con conds h.0, merge_each-Distinct con conds h.1)
    | inr new ↦
        let away = other con.field ec.field ec.field new (bytes_eq_refl ec.field) in
        rw (set_cond-new con ec conds new)
          (set_cond-Fresh ec.field con conds away h.0, set_cond-Distinct con conds h.1)
  ]

  pub set_conds-Distinct :
      (cons conds : List (Condition (Value I))) → Distinct conds → Distinct (set_conds cons conds)
  unfolding set_conds
  set_conds-Distinct [] conds h = h
  set_conds-Distinct (con ∷ cons) conds h =
      set_conds-Distinct cons (set_cond con conds) (set_cond-Distinct con conds h)
