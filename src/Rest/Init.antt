-- ===== src/Rest/Init.antt =====
-- Init in rest/middlewares.go: what it makes of the parameters of a request, in the order in which
-- the loop takes them.
pub mod Made
pub mod Panics
pub mod Slots
pub mod Merged
use wgo.Common.{
  ℕ, Bool, true, false, ◌&&◌, ◌||◌, Option, none, some, List, [], ◌∷◌, ◌++◌, Bytes, bytes, bytes_eq,
  has_byte, cut, split, ◌==◌, if◌then◌else◌,
}
use wgo.Common.Int.{ℤ}
use wgo.Rest.{
  TimeRange, OrderBy, Condition, Leaf, text, texts, Value, leaf, nested, CType, is_type, or_type,
  join_type, condition_of, leaf_text, value_text,
}
use wgo.Rest.Query.{
  ctype_by_prefix, Pagination, new_pagination, parse_params, Clock, time_range_from_date,
  time_range_from_start_end, order_by_of, set_param_conds,
}

abbrev pub is_empty : Bytes → Bool
is_empty [] = true
is_empty (b ∷ bs) = false

abbrev pub is_is : CType → Bool
is_is is_type = true
is_is _ = false

-- `strings.TrimPrefix(k, "_")`
abbrev pub trim_underscore : Bytes → Bytes
trim_underscore [] = []
trim_underscore (b ∷ bs) = if b == b'_' then bs else b ∷ bs

module _ {I : Type 0} where
  -- The values of a parameter: several, one with commas in it, or one.
  unfoldable pub con_value : Bytes → List Bytes → Leaf I
  con_value v (w ∷ vs) = texts (v ∷ w ∷ vs)
  con_value v [] = if has_byte b',' v then texts (split b',' v) else text v

  abbrev value_condition : CType → Bytes → Value I → Option (Option (Condition (Value I)))
  value_condition ct k v = condition_of value_text ct k v v (v ∷ [])

  -- A condition as the value of another. The callers give a field that is not empty, for which it is
  -- not nil.
  abbrev inner_condition : CType → Bytes → Leaf I → Option (Value I)
  inner_condition ct k cv = elim (condition_of leaf_text ct k cv cv (cv ∷ [])) [
    | some (some con) ↦ some (nested con)
    | _ ↦ none
  ]

  -- The conditions for `a|b|...`, one for each field.
  unfoldable pub or_conditions :
      CType → Bytes → Leaf I → List Bytes → Option (List (Option (Condition (Value I))))
  unfolding condition_of
  or_conditions ct k cv [] = some []
  or_conditions ct k cv (of ∷ os) =
      let rest = or_conditions ct k cv os in
      if is_empty of then rest else elim (inner_condition ct k cv) [
        | none ↦ none
        | some inner ↦ elim (value_condition or_type of inner) [
          | none ↦ none
          | some con ↦ elim rest [ none ↦ none | some cons ↦ some (con ∷ cons) ]
        ]
      ]

  -- The join for `table.field`, if neither is empty.
  unfoldable pub join_condition :
      CType → Bytes → Leaf I → Bytes → Option Bytes → Option (Option (Condition (Value I)))
  unfolding condition_of
  join_condition ct k cv table none = value_condition ct k (leaf cv)
  join_condition ct k cv table (some field) =
      if is_empty table || is_empty field
      then value_condition ct k (leaf cv)
      else elim (inner_condition ct field cv) [
        | none ↦ none
        | some inner ↦ value_condition join_type table inner
      ]

  -- The condition for a field `k` with no `|` in it.
  unfoldable pub plain_condition : CType → Bytes → Leaf I → Option (Option (Condition (Value I)))
  unfolding join_condition
  plain_condition ct k cv = let (table, field) = cut b'.' k in join_condition ct k cv table field

  abbrev pub one :
      Option (Option (Condition (Value I))) → Option (List (Option (Condition (Value I))))
  one none = none
  one (some con) = some (con ∷ [])

  -- What SetParamConds is called with for the key `k` without its prefix.
  unfoldable pub conditions_for :
      CType → Bytes → Leaf I → Option (List (Option (Condition (Value I))))
  unfolding or_conditions plain_condition
  conditions_for ct k cv =
      if has_byte b'|' k
      then or_conditions ct k cv (split b'|' k)
      else one (plain_condition ct k cv)

  -- The same for a parameter `k`; none is a panic, as for `k[0]` of an empty `k`.
  unfoldable pub param_conditions : Bytes → Leaf I → Option (List (Option (Condition (Value I))))
  unfolding conditions_for ctype_by_prefix
  param_conditions [] cv = none
  param_conditions (b ∷ bs) cv =
      let ct = ctype_by_prefix b in
      conditions_for ct (trim_underscore (if is_is ct then b ∷ bs else bs)) cv

  unfoldable pub set_all_conds :
      List (Option (Condition (Value I)))
      → List (Condition (Value I))
      → Option (List (Condition (Value I)))
  set_all_conds [] conds = some conds
  set_all_conds (con ∷ cons) conds = elim (set_param_conds con conds) [
    | none ↦ none
    | some conds' ↦ set_all_conds cons conds'
  ]

-- What the loop writes: the environment of the request, `p` and `pp`.
pub record Env (I : Type 0) : Type 0 where
  pub pretty : Bool
  pub time_range : Option TimeRange
  pub order_by : Option OrderBy
  pub fields : Option (List Bytes)
  pub conds : List (Condition (Value I))
  pub page : Bytes
  pub per_page : Bytes

abbrev pub fields_of : Bytes → List Bytes → List Bytes
fields_of v (w ∷ vs) = v ∷ w ∷ vs
fields_of v [] = if has_byte b',' v then split b',' v else v ∷ []

module _ {I : Type 0} where
  abbrev pub with_conds : Env I → Option (List (Condition (Value I))) → Option (Env I)
  with_conds env none = none
  with_conds env (some conds) = some (record env { conds = conds })

  unfoldable pub set_made : Env I → Option (List (Option (Condition (Value I)))) → Option (Env I)
  unfolding set_all_conds
  set_made env none = none
  set_made env (some cons) = with_conds env (set_all_conds cons env.conds)

  -- `rest.SetParamConds` for the parameter's conditions.
  unfoldable pub add_conds : Bytes → Bytes → List Bytes → Env I → Option (Env I)
  unfolding param_conditions set_made
  add_conds k v vs env = set_made env (param_conditions k (con_value v vs))

module _ {I : Type 0} (clock : Clock) where
  -- The `switch k`, for the values that are left of the parameter.
  unfoldable pub by_name : Bytes → Bytes → List Bytes → Env I → Option (Env I)
  unfolding add_conds
  by_name k v vs env =
      if bytes_eq k (bytes "start") || bytes_eq k (bytes "end")
      then some env
      else if bytes_eq k (bytes "date")
      then some (record env { time_range = some (time_range_from_date clock (v ∷ vs)) })
      else if bytes_eq k (bytes "orderby")
      then some (record env { order_by = some (order_by_of (v ∷ vs)) })
      else if bytes_eq k (bytes "fields")
      then some (record env { fields = some (fields_of v vs) })
      else if bytes_eq k (bytes "per_page")
      then some (record env { per_page = v })
      else if bytes_eq k (bytes "page")
      then some (record env { page = v })
      else add_conds k v vs env

  abbrev pub values_left : Bytes → List Bytes → Env I → Option (Env I)
  values_left k [] env = some env
  values_left k (v ∷ vs) env = by_name k v vs env

  -- One round of `for k, v := range params`.
  unfoldable pub init_param : Bytes → List Bytes → Env I → Option (Env I)
  unfolding by_name
  init_param k v env =
      values_left k (parse_params v)
        (if bytes_eq k (bytes "pretty") then record env { pretty = true } else env)

  unfoldable pub init_params : List (Bytes × List Bytes) → Env I → Option (Env I)
  unfolding init_param
  init_params [] env = some env
  init_params ((k, v) ∷ params) env = elim (init_param k v env) [
    | none ↦ none
    | some env' ↦ init_params params env'
  ]

  -- Where the loop starts: the range is that of `start` and `end`, and there are no conditions.
  abbrev pub start_env : Bytes → Bytes → Env I
  start_env s e = record {
    pretty = false;
    time_range = time_range_from_start_end clock s e;
    order_by = none;
    fields = none;
    conds = [];
    page = [];
    per_page = [];
  }

  -- The loop and the page behind it; `number` is what IntByIndex makes of a text.
  unfoldable pub init_query :
      (Bytes → ℤ) → Bytes → Bytes → List (Bytes × List Bytes) → Option (Env I × Pagination)
  unfolding init_params
  init_query number s e params = elim (init_params params (start_env s e)) [
    | none ↦ none
    | some env ↦ some (env, new_pagination (number env.per_page) (number env.page))
  ]
