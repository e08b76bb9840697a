-- ===== src/Rest/Prepare/Errors.antt =====
-- ReadPrepare in rest/model.go: when it refuses to read.
use wgo.Common.{
  ◌≡◌, ◌↔◌, refl, inl, inr, Bool, true, false, ◌&&◌, some, List, [], ◌∷◌, Bytes, All, Bool-cases,
  Option-cases, arith,
}
use wgo.Rest.{Condition, Value}
use wgo.Rest.Where.{Printer}
use wgo.Rest.Prepare.{
  Column, Source, no_condition, is_searchable, some_of, is_given, from_self, own_values, each_equal,
  with_conditions, read_prepare, self_calls,
}

abbrev NoValue : Column → Type 0
NoValue col = (is_searchable col && is_given col.own) ≡ false

-- The model says nothing of a row: no primary key, no key, no union keys, and no value in a column
-- to search by.
abbrev pub IsBlank : Source → Type 0
IsBlank src =
    (src.pkey.1 ≡ [])
    × (src.key.1 ≡ [])
    × (src.union_keys ≡ [])
    × All (λ col. (is_searchable col && is_given col.own) ≡ false) src.columns

module _ {I : Type 0} (fmt : Printer I) where
  own_values-nil :
      (cols : List Column)
      → (some_of (own_values fmt cols) ≡ false)
        ↔ All (λ col. (is_searchable col && is_given col.own) ≡ false) cols
  unfolding own_values
  own_values-nil [] = (λ e. tt, λ h. refl)
  own_values-nil (col ∷ cols) = ground (arith, own_values-nil cols)

  self_calls-nil :
      (pkey key : Bytes × Bytes) (uks : List (Bytes × Bytes)) (cols : List Column)
      → (some_of (self_calls fmt pkey key uks cols) ≡ false)
        ↔ ((pkey.1 ≡ []) × (key.1 ≡ []) × (uks ≡ []) × All NoValue cols)
  unfolding self_calls each_equal
  self_calls-nil (pf, b ∷ bs) key uks cols = (λ e. absurd (cc), λ h. absurd (cc (h.0)))
  self_calls-nil (pf, []) (kf, b ∷ bs) uks cols = (λ e. absurd (cc), λ h. absurd (cc (h.1)))
  self_calls-nil (pf, []) (kf, []) (uk ∷ uks) cols = (λ e. absurd (cc), λ h. absurd (cc (h.2)))
  self_calls-nil (pf, []) (kf, []) [] cols =
      (λ e. (refl, refl, refl, (own_values-nil cols).0 e), λ h. (own_values-nil cols).1 h.3)

  from_self-IsBlank : (src : Source) → (some_of (from_self fmt src) ≡ false) ↔ IsBlank src
  unfolding from_self
  from_self-IsBlank src = self_calls-nil src.pkey src.key src.union_keys src.columns

  -- For any model, with its columns or none, and any conditions: it is refused for the lack of a
  -- condition exactly when a condition is asked for, it has columns, no conditions are set, and it says
  -- nothing of a row itself.
  pub read_prepare-no_condition :
      (disable must : Bool) (src : Source) (cons : List (Condition (Value I)))
      → (read_prepare fmt disable must (some src) cons ≡ no_condition)
        ↔ ((must ≡ true) × (some_of src.columns ≡ true) × (cons ≡ []) × IsBlank src)
  unfolding read_prepare
  read_prepare-no_condition disable must src [] = elim (Bool-cases (some_of (from_self fmt src))) [
    | inl said ↦ ground (arith, from_self-IsBlank src, said)
    | inr blank ↦ ground (arith, (from_self-IsBlank src).0 blank, blank)
  ]
  read_prepare-no_condition disable must src (v ∷ cons) =
      elim (Option-cases (with_conditions fmt disable src (v ∷ cons))) [
        | inl panics ↦ ground (arith, panics)
        | inr (calls, made) ↦ ground (arith, made)
      ]
