-- ===== src/Rest/Select.antt =====
-- SetConditions in rest/model.go and ParseCondition in rest/query.go: which conditions a model takes.
-- The conditions of one call are objects that no call before was given; each is known by its place, so
-- a change to one shows wherever it was appended.
pub mod Dropped
pub mod Places
pub mod Admitted
use wgo.Common.{
  ℕ, Bool, true, false, ◌&&◌, ◌||◌, Option, none, some, List, [], ◌∷◌, ◌++◌, map, Bytes, bytes,
  bytes_eq, get_or, set, if◌then◌else◌,
}
use wgo.Rest.{
  TimeRange, Condition, Leaf, text, texts, time_range, moment, Value, leaf, nested, get_condition,
}
use wgo.Rest.Query.{Clock, get_time_range}
use wgo.Rest.Prepare.{Column, is_searchable, some_of}

abbrev pub is_some : {A : Type 0} → Option A → Bool
is_some none = false
is_some (some a) = true

module _ {I : Type 0} (clock : Clock) where
  abbrev parse_value : Option (Value I) → Option (Value I)
  parse_value (some (leaf (text s))) = elim (clock.parse (bytes "20060102150405") s) [
    | none ↦ some (leaf (text s))
    | some t ↦ some (leaf (moment t))
  ]
  parse_value o = o

  -- `ParseCondition`
  unfoldable pub parse_condition : Bytes → Condition (Value I) → Condition (Value I)
  parse_condition type_name con =
      if bytes_eq type_name (bytes "*time.Time")
      then record con {
        is = parse_value con.is;
        not = parse_value con.not;
        gt = parse_value con.gt;
        lt = parse_value con.lt;
      }
      else con

-- The conditions that were given, and the places of those that are appended to the model's.
pub record Chosen (I : Type 0) : Type 0 where
  pub given : List (Option (Condition (Value I)))
  pub places : List ℕ

module _ {I : Type 0} where
  abbrev pub append : ℕ → Chosen I → Chosen I
  append i s = record s { places = s.places ++ i ∷ [] }

  abbrev pub change : ℕ → Condition (Value I) → Chosen I → Chosen I
  change i con s = record s { given = set s.given i (some con); places = s.places ++ i ∷ [] }

  abbrev pub wants_any : Condition (Value I) → Bool
  wants_any con =
      is_some con.is
      || is_some con.not
      || is_some con.gt
      || is_some con.lt
      || is_some con.like
      || is_some con.join
      || is_some con.or

  -- A condition that passes the test is appended as it is.
  abbrev keep_if :
      (Condition (Value I) → Bool) → Option (ℕ × Condition (Value I)) → Chosen I → Chosen I
  keep_if test none s = s
  keep_if test (some (i, con)) s = if test con then append i s else s

  unfoldable pub take_join : Column → Chosen I → Chosen I
  unfolding get_condition
  take_join col s = keep_if (λ con. is_some con.join) (get_condition s.given col.ext_tag) s

  unfoldable pub take_raw : Column → Chosen I → Chosen I
  unfolding get_condition
  take_raw col s = keep_if (λ con. some_of con.raw) (get_condition s.given col.tag) s

  abbrev rename_if :
      Bytes → (Condition (Value I) → Bool) → Option (ℕ × Condition (Value I)) → Chosen I → Chosen I
  rename_if field test none s = s
  rename_if field test (some (i, con)) s =
      if test con then change i (record con { field = field }) s else s

  abbrev pub in_front :
      Option (Condition (Value I)) → List (Condition (Value I)) → List (Condition (Value I))
  in_front none cons = cons
  in_front (some con) cons = con ∷ cons

  -- The conditions at the places, as they are in the end.
  abbrev pub at_places : List (Option (Condition (Value I))) → List ℕ → List (Condition (Value I))
  at_places given [] = []
  at_places given (i ∷ is) = in_front (get_or given i none) (at_places given is)

  unfoldable pub take_order : Column → Chosen I → Chosen I
  unfolding get_condition
  take_order col s =
      if col.ext_has (bytes "O")
      then rename_if col.tag (λ c. is_some c.order) (get_condition s.given (bytes "O")) s
      else s

  module _ (clock : Clock) where
    -- `condition.Is` as a `[]string` of more than one
    abbrev from_texts : ℕ → Condition (Value I) → Option (Value I) → Chosen I → Chosen I
    from_texts i con (some (leaf (texts (a ∷ b ∷ rest)))) s =
        change i
          (record con { is = none; range = some (leaf (time_range (get_time_range clock a b))) }) s
    from_texts i con o s = s

    abbrev take_range_of : Bytes → Option (ℕ × Condition (Value I)) → Chosen I → Chosen I
    take_range_of tag none s =
        rename_if tag (λ c. is_some c.is) (get_condition s.given (bytes "TR")) s
    take_range_of tag (some (i, con)) s =
        if is_some con.range
        then append i s
        else if is_some con.is
        then from_texts i con con.is s
        else rename_if tag (λ c. is_some c.is) (get_condition s.given (bytes "TR")) s

    unfoldable pub take_range : Column → Chosen I → Chosen I
    unfolding get_condition get_time_range
    take_range col s =
        if col.ext_has (bytes "TR")
        then take_range_of col.tag (get_condition s.given col.tag) s
        else s

    abbrev parse_if : Bytes → Option (ℕ × Condition (Value I)) → Chosen I → Chosen I
    parse_if type_name none s = s
    parse_if type_name (some (i, con)) s =
        if wants_any con then change i (parse_condition clock type_name con) s else s

    unfoldable pub take_searchable : Column → Chosen I → Chosen I
    unfolding get_condition parse_condition
    take_searchable col s =
        if col.tag_has (bytes "pk") || is_searchable col
        then parse_if col.type_name (get_condition s.given col.tag) s
        else s

    -- One round of the loop over the columns.
    unfoldable pub take_column : Column → Chosen I → Chosen I
    unfolding take_join take_raw take_range take_order take_searchable
    take_column col s =
        take_searchable col (take_order col (take_range col (take_raw col (take_join col s))))

    unfoldable pub take_columns : List Column → Chosen I → Chosen I
    unfolding take_column
    take_columns [] s = s
    take_columns (col ∷ cols) s = take_columns cols (take_column col s)

    -- `SetConditions`: the model's conditions behind it. Without a model or its columns, none, there
    -- is no change.
    unfoldable pub set_conditions :
        Option (List Column)
        → List (Option (Condition (Value I)))
        → List (Condition (Value I))
        → List (Condition (Value I))
    unfolding take_columns
    set_conditions none cs conditions = conditions
    set_conditions (some cols) cs conditions =
        let s = take_columns cols (record { given = cs; places = [] }) in
        conditions ++ at_places s.given s.places
