-- ===== src/Rest/Action.antt =====
-- PreGet, PreSearch and PreCheck in rest/action.go: what a request sets for the model that it reads.
pub mod Undated
use wgo.Common.{◌≡◌, Option, none, some, List, [], ◌∷◌, map, Bytes, bytes}
use wgo.Rest.{
  Condition, text, time_range, order_by, Value, leaf, CType, is_type, range_type, order_type,
  condition_of, value_text, TimeRange, OrderBy,
}
use wgo.Rest.Query.{Clock, Pagination}
use wgo.Rest.Init.{Env}
use wgo.Rest.Prepare.{Column}
use wgo.Rest.Select.{set_conditions}

-- What the model's REST has been given: its conditions, its page and its fields.
pub record Reading (I : Type 0) : Type 0 where
  pub conditions : List (Condition (Value I))
  pub pagination : Option Pagination
  pub fields : Option (List Bytes)

module _ {I : Type 0} (clock : Clock) (cols : Option (List Column)) where
  abbrev given_conditions :
      Option (Option (Condition (Value I))) → List (Option (Condition (Value I)))
  given_conditions none = []
  given_conditions (some con) = con ∷ []

  -- `m.SetConditions(NewCondition(typ, field, v))`, for a type and a field that do not make it panic
  unfoldable pub set_new : CType → Bytes → Value I → Reading I → Reading I
  unfolding condition_of
  set_new typ field v r = record r {
    conditions =
        set_conditions clock cols
          (given_conditions (condition_of value_text typ field v v (v ∷ []))) r.conditions;
  }

  -- `m.SetConditions(r.GetParamConds()...)`
  unfoldable pub set_params : List (Condition (Value I)) → Reading I → Reading I
  set_params conds r = record r {
    conditions = set_conditions clock cols (map some conds) r.conditions;
  }

  abbrev set_range : CType → Option TimeRange → Reading I → Reading I
  set_range typ none r = r
  set_range typ (some tr) r = set_new typ (bytes "TR") (leaf (time_range tr)) r

  abbrev set_order : Option OrderBy → Reading I → Reading I
  set_order none r = r
  set_order (some ob) r = set_new order_type (bytes "O") (leaf (order_by ob)) r

  abbrev set_page : Option Pagination → Reading I → Reading I
  set_page none r = r
  set_page (some p) r = record r { pagination = some p }

  abbrev set_fields : Option (List Bytes) → Reading I → Reading I
  set_fields none r = r
  set_fields (some fs) r = record r { fields = some fs }

  abbrev set_id : Bytes → Bytes → Reading I → Reading I
  set_id pk [] r = r
  set_id pk (b ∷ bs) r = set_new is_type pk (leaf (text (b ∷ bs))) r

  -- `PreGet`, for the name of the primary key and the row's id in the path.
  unfoldable pub pre_get : Bytes → Bytes → Env I → Reading I → Reading I
  unfolding set_new set_params
  pre_get pk id env r =
      set_fields env.fields
        (set_params env.conds (set_range is_type env.time_range (set_id pk id r)))

  -- `PreSearch`
  unfoldable pub pre_search : Env I → Option Pagination → Reading I → Reading I
  pre_search env page r = set_fields env.fields (
      set_params env.conds
        (set_range range_type env.time_range (set_order env.order_by (set_page page r))))

  -- `PreCheck`
  unfoldable pub pre_check : Env I → Reading I → Reading I
  unfolding set_new set_params
  pre_check env r = set_params env.conds (set_range is_type env.time_range r)
