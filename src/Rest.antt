-- ===== src/Rest.antt =====
-- rest/model.go: Condition with NewCondition, Merge and GetCondition. A nil interface is none. `I`
-- stands for the values of an interface that the code only prints or hands on.
pub mod Query
pub mod Init
pub mod Where
pub mod Prepare
pub mod Select
pub mod Action
pub mod Handlers
mod Tests
use wgo.Common.{ℕ, ◌+◌, Option, none, some, List, [], ◌∷◌, Bytes, bytes_eq, if◌then◌else◌}

pub record TimeRange : Type 0 where
  pub start : ℕ
  pub end : ℕ

pub record OrderBy : Type 0 where
  pub field : Bytes
  pub sort : Bytes

-- `Condition`, where `V` is what its interfaces hold.
pub record Condition (V : Type 0) : Type 0 where
  pub field : Bytes
  pub is : Option V
  pub not : Option V
  pub or : Option V
  pub gt : Option V
  pub lt : Option V
  pub like : Option V
  pub join : Option V
  pub join_on : List V
  pub range : Option V
  pub order : Option V
  pub raw : Bytes

-- An argument of a query.
pub data Arg (I : Type 0) : Type 0 where
  string : Bytes → Arg I
  value : I → Arg I
  time : ℕ → Arg I

-- A value by its dynamic type: `number` is an int, an int64 or a float64, `pointer` one that points
-- to a string or a number, `numbers` a []int, `items` a []interface{}; a time or a range of times may
-- stand behind a pointer.
pub data Leaf (I : Type 0) : Type 0 where
  text : Bytes → Leaf I
  number : I → Leaf I
  pointer : Arg I → Leaf I
  texts : List Bytes → Leaf I
  numbers : List I → Leaf I
  items : List I → Leaf I
  time_range : TimeRange → Leaf I
  moment : ℕ → Leaf I
  order_by : OrderBy → Leaf I
  other : I → Leaf I

-- A value, or a condition within a condition, whose own values are leaves.
pub data Value (I : Type 0) : Type 0 where
  leaf : Leaf I → Value I
  nested : Condition (Leaf I) → Value I

pub data CType : Type 0 where
  is_type : CType
  not_type : CType
  or_type : CType
  like_type : CType
  gt_type : CType
  lt_type : CType
  join_type : CType
  range_type : CType
  order_type : CType
  raw_type : CType
  no_type : CType

abbrev pub over_raw : Bytes → Bytes → Bytes
over_raw [] old = old
over_raw (b ∷ bs) old = b ∷ bs

module _ {V : Type 0} where
  abbrev pub only_field : Bytes → Condition V
  only_field f = record {
    field = f;
    is = none;
    not = none;
    or = none;
    gt = none;
    lt = none;
    like = none;
    join = none;
    join_on = [];
    range = none;
    order = none;
    raw = [];
  }

  -- `cs[1:]` for three or more values, else nil
  abbrev join_values : List V → List V
  join_values (a ∷ b ∷ c ∷ rest) = b ∷ c ∷ rest
  join_values _ = []

  -- The `switch typ`: `first` is the first of the values `cs`, and `v` that value or all of them. A
  -- raw condition wants a string and panics, which is none, for another value.
  unfoldable pub fill :
      (V → Option Bytes) → CType → V → V → List V → Condition V → Option (Condition V)
  fill as_text is_type v first cs con = some (record con { is = some v })
  fill as_text not_type v first cs con = some (record con { not = some v })
  fill as_text gt_type v first cs con = some (record con { gt = some v })
  fill as_text lt_type v first cs con = some (record con { lt = some v })
  fill as_text join_type v first cs con =
      some (record con { join = some first; join_on = join_values cs })
  fill as_text or_type v first cs con = some (record con { or = some v })
  fill as_text like_type v first cs con = some (record con { like = some v })
  fill as_text range_type v first cs con = some (record con { range = some v })
  fill as_text order_type v first cs con = some (record con { order = some v })
  fill as_text raw_type v first cs con = elim (as_text v) [
    | none ↦ none
    | some s ↦ some (record con { raw = s })
  ]
  fill as_text no_type v first cs con = some con

  -- `NewCondition` with the values `cs`, whose first is `first`, and `v` as above: none is a panic
  -- and `some none` is nil.
  unfoldable pub condition_of :
      (V → Option Bytes) → CType → Bytes → V → V → List V → Option (Option (Condition V))
  unfolding fill
  condition_of as_text typ [] v first cs = some none
  condition_of as_text typ (b ∷ bs) v first cs =
      elim (fill as_text typ v first cs (only_field (b ∷ bs))) [
        | none ↦ none
        | some con ↦ some (some con)
      ]

  -- `NewCondition`, where `together` makes one value of several.
  unfoldable pub new_condition :
      (V → Option Bytes) → (List V → V) → CType → Bytes → List V → Option (Option (Condition V))
  unfolding condition_of
  new_condition as_text together typ field [] = some none
  new_condition as_text together typ field (c ∷ []) = condition_of as_text typ field c c (c ∷ [])
  new_condition as_text together typ field (c ∷ d ∷ cs) =
      condition_of as_text typ field (together (c ∷ d ∷ cs)) c (c ∷ d ∷ cs)

  -- `if oc.Is != nil { con.Is = oc.Is }`
  abbrev pub over : Option V → Option V → Option V
  over none old = old
  over (some v) old = some v

  abbrev joined_on : Option V → List V → List V → List V
  joined_on none new old = old
  joined_on (some v) new old = new

  -- `con.Merge(oc)`
  unfoldable pub merge : Condition V → Condition V → Condition V
  merge con oc = record con {
    is = over oc.is con.is;
    or = over oc.or con.or;
    not = over oc.not con.not;
    gt = over oc.gt con.gt;
    lt = over oc.lt con.lt;
    like = over oc.like con.like;
    range = over oc.range con.range;
    order = over oc.order con.order;
    join = over oc.join con.join;
    join_on = joined_on oc.join oc.join_on con.join_on;
    raw = over_raw oc.raw con.raw;
  }

  get_condition_from : ℕ → List (Option (Condition V)) → Bytes → Option (ℕ × Condition V)
  get_condition_from n [] k = none
  get_condition_from n (none ∷ cs) k = get_condition_from (n + 1) cs k
  get_condition_from n (some c ∷ cs) k =
      if bytes_eq c.field k then some (n, c) else get_condition_from (n + 1) cs k

  -- `GetCondition`: the first condition of the field, where a nil one is passed over, with its place,
  -- which tells which object it is; none is the error.
  unfoldable pub get_condition : List (Option (Condition V)) → Bytes → Option (ℕ × Condition V)
  unfolding get_condition_from
  get_condition cs k = get_condition_from 0 cs k

-- `v.(string)`

abbrev pub leaf_text : {I : Type 0} → Leaf I → Option Bytes
leaf_text (text s) = some s
leaf_text _ = none

abbrev pub value_text : {I : Type 0} → Value I → Option Bytes
value_text (leaf l) = leaf_text l
value_text (nested c) = none
