-- ===== src/Rest/Select/Dropped.antt =====
-- SetConditions in rest/model.go, as PreSearch of rest/action.go calls it for a range of times.
use wgo.Common.{
  ◌≡◌, refl, ap, ◌∙◌, false, some, List, [], ◌∷◌, ◌++◌, Bytes, bytes, bytes_eq, All, append_nil,
  arith,
}
use mathlib.Core.Path.{subst}
use wgo.Rest.{
  Condition, only_field, Value, range_type, condition_of, value_text, get_condition, fill,
}
use wgo.Rest.Query.{Clock}
use wgo.Rest.Prepare.{Column}
use wgo.Rest.Select.{
  Chosen, take_join, take_raw, take_range, take_order, take_searchable, take_column, take_columns,
  set_conditions, at_places,
}

abbrev pub NotCalled : Bytes → Column → Type 0
NotCalled name col = (bytes_eq name col.tag ≡ false) × (bytes_eq name col.ext_tag ≡ false)

module _ {I : Type 0} (clock : Clock) (v : Value I) where
  abbrev ranged : Condition (Value I)
  ranged = record (only_field (bytes "TR")) { range = some v }

  abbrev untaken : Chosen I
  untaken = record { given = some ranged ∷ []; places = [] }

  take_column-untaken :
      (col : Column) → NotCalled (bytes "TR") col → take_column clock col untaken ≡ untaken
  unfolding take_column take_join take_raw take_range take_order take_searchable get_condition
      bytes_eq
  take_column-untaken col h = ground arith

  take_columns-untaken :
      (cols : List Column)
      → All (NotCalled (bytes "TR")) cols
      → take_columns clock cols untaken ≡ untaken
  unfolding take_columns
  take_columns-untaken [] h = refl
  take_columns-untaken (col ∷ cols) h =
      ap (take_columns clock cols) (take_column-untaken col h.0) ∙ take_columns-untaken cols h.1

  -- For a model none of whose columns is called `TR`: the range of times that a search asks for adds
  -- no condition, whatever columns are marked as ranges of times.
  pub set_conditions-search :
      (cols : List Column) (con : Condition (Value I)) (conditions : List (Condition (Value I)))
      → All (NotCalled (bytes "TR")) cols
      → condition_of value_text range_type (bytes "TR") v v (v ∷ []) ≡ some (some con)
      → set_conditions clock (some cols) (some con ∷ []) conditions ≡ conditions
  unfolding set_conditions condition_of fill
  set_conditions-search cols con conditions h made =
      let asked : ranged ≡ con = cc in
      subst (λ c. set_conditions clock (some cols) (some c ∷ []) conditions ≡ conditions) asked
        (ap (λ (s : Chosen I). conditions ++ at_places s.given s.places)
            (take_columns-untaken cols h)
          ∙ append_nil conditions)
