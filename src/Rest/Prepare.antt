-- ===== src/Rest/Prepare.antt =====
-- ReadPrepare in rest/model.go: the calls of the builder that make a query of a model. What the model
-- knows by reflection or from gorp is in `Source`.
pub mod Errors
pub mod Contradiction
pub mod Deleted
use wgo.Common.{
  ℕ, zero, suc, ◌+◌, Bool, true, false, not, ◌&&◌, ◌||◌, Option, none, some, List, [], ◌∷◌, ◌++◌,
  Bytes, bytes, bytes_eq, join, if◌then◌else◌,
}
use wgo.Rest.{
  TimeRange, OrderBy, Condition, Arg, string, Leaf, text, texts, items, time_range, order_by, Value,
  leaf, nested,
}
use wgo.Rest.Where.{
  Call, where_call, order_call, joins_call, Printer, group, quoted, column, t_column,
  build_where_raw, do_where,
}

-- A column: its name in `db`, its name in the extension tag, its type, what TagOptions.Contains and
-- ExtOptions.Contains say of an option, and the text of its value, which is empty where the value
-- is.
pub record Column : Type 0 where
  pub tag : Bytes
  pub ext_tag : Bytes
  pub type_name : Bytes
  pub tag_has : Bytes → Bool
  pub ext_has : Bytes → Bool
  pub own : Bytes

-- `m.Columns()`, `m.PKey()`, `m.Key()`, `m.UnionKeys()` in the order of the range over it, and for
-- the name of a table the columns of the model that gorp knows it by.
pub record Source : Type 0 where
  pub columns : List Column
  pub pkey : Bytes × Bytes
  pub key : Bytes × Bytes
  pub union_keys : List (Bytes × Bytes)
  pub table_columns : Bytes → Option (List Column)

pub data Prepared (I : Type 0) : Type 0 where
  built : List (Call I) → Prepared I
  no_model : Prepared I
  wrong_type : Prepared I
  no_condition : Prepared I
  panicked : Prepared I

-- The state of the second loop: the calls, `joinCount` and `orCons`.
pub record Loop (I : Type 0) : Type 0 where
  pub calls : List (Call I)
  pub join_count : ℕ
  pub or_cons : List (Bytes × List Bytes)

abbrev pub is_searchable : Column → Bool
is_searchable col = col.ext_has (bytes "C") || col.tag_has (bytes "uk") || col.tag_has (bytes "k")

abbrev pub some_of : {A : Type 0} → List A → Bool
some_of [] = false
some_of (x ∷ xs) = true

abbrev pub is_given : Bytes → Bool
is_given s = some_of s

abbrev has_value : {A : Type 0} → Option A → Bool
has_value none = false
has_value (some a) = true

module _ {I : Type 0} (fmt : Printer I) where
  abbrev equals : Bytes → Bytes → Call I
  equals f v = where_call (t_column f ++ bytes " = ?") (string v ∷ [])

  between : Bytes → Option (Value I) → List (Call I)
  between field (some (leaf (time_range tr))) =
      where_call (t_column field ++ bytes " BETWEEN ? AND ?")
        (string (fmt.date_time tr.start) ∷ string (fmt.date_time tr.end) ∷ [])
      ∷ []
  between field _ = []

  ordered : Bool → Option (Value I) → List (Call I)
  ordered false (some (leaf (order_by ob))) =
      order_call (t_column ob.field ++ (bytes " " ++ ob.sort)) ∷ []
  ordered disable _ = []

  -- The first loop over the conditions.
  unfoldable pub ranges_and_orders : Bool → List (Condition (Value I)) → List (Call I)
  unfolding between ordered
  ranges_and_orders disable [] = []
  ranges_and_orders disable (v ∷ cons) =
      between v.field v.range ++ (ordered disable v.order ++ ranges_and_orders disable cons)

  -- `orCons`, in the order in which its keys come.
  abbrev OrCons : Type 0
  OrCons = List (Bytes × List Bytes)

  -- `orCons[key] = append(orCons[key], parts...)`, which makes the entry where there is none.
  or_add : Bytes → List Bytes → OrCons → OrCons
  or_add key parts [] = (key, parts) ∷ []
  or_add key parts ((key', old) ∷ cons) =
      if bytes_eq key' key then (key', old ++ parts) ∷ cons else (key', old) ∷ or_add key parts cons

  or_part : Bytes → Option (Leaf I) → List Bytes
  or_part field (some (text s)) = (t_column field ++ (bytes " = " ++ quoted s)) ∷ []
  or_part field (some (texts vs)) =
      (t_column field ++ (bytes " IN " ++ group (bytes ",") quoted vs)) ∷ []
  or_part field (some (items vs)) =
      (t_column field ++ (bytes " IN " ++ group (bytes ",") (λ v. quoted (fmt.verb v)) vs)) ∷ []
  or_part field _ = []

  -- `v.Or.(*Condition)` panics for another value.
  or_step : Bytes → Option (Value I) → OrCons → Option OrCons
  unfolding or_add or_part
  or_step field none cons = some cons
  or_step field (some (leaf l)) cons = none
  or_step field (some (nested oc)) cons = some (or_add oc.field (or_part field oc.is) cons)

  -- The text for Joins; `v.JoinOn[1]` panics where there is one value alone.
  join_text : Bytes → List (Value I) → ℕ → Option Bytes
  join_text field (a ∷ b ∷ rest) n =
      let t = bytes "T" ++ fmt.count n in
      some (
        bytes "LEFT JOIN `"
        ++ (field
            ++ (bytes "` "
                ++ (t
                    ++ (bytes " ON "
                        ++ (t_column (fmt.verb_value a)
                            ++ (bytes " = " ++ column t (fmt.verb_value b))))))))
  join_text field (a ∷ []) n = none
  join_text field [] n =
      let t = bytes "T" ++ fmt.count n in
      some (
        bytes "LEFT JOIN `"
        ++ (field
            ++ (bytes "` "
                ++ (t
                    ++ (bytes " ON "
                        ++ (t_column field ++ (bytes " = " ++ column t (bytes "id"))))))))

  -- The first column that the join may ask for.
  joined : Bytes → List Column → Bool
  joined field [] = false
  joined field (col ∷ cols) = bytes_eq col.tag field && col.ext_has (bytes "C") || joined field cols

  abbrev to_value : Option (Leaf I) → Option (Value I)
  to_value none = none
  to_value (some l) = some (leaf l)

  add_join : Condition (Value I) → Condition (Leaf I) → Loop I → Option Bytes → Option (Loop I)
  add_join v vt s none = none
  add_join v vt s (some on) = some (record s {
    calls =
        s.calls
        ++ joins_call on
          ∷ build_where_raw fmt (bytes "T" ++ fmt.count s.join_count) vt.field (to_value vt.is);
    join_count = s.join_count + 1;
  })

  -- The join, if the columns of the table let it be asked for.
  join_table :
      Condition (Value I) → Condition (Leaf I) → Loop I → Option (List Column) → Option (Loop I)
  unfolding add_join join_text joined
  join_table v vt s none = some s
  join_table v vt s (some fcols) =
      if joined vt.field fcols
      then add_join v vt s (join_text v.field v.join_on s.join_count)
      else some s

  join_step :
      (Bytes → Option (List Column))
      → Condition (Value I)
      → Option (Value I)
      → Loop I
      → Option (Loop I)
  unfolding join_table
  join_step tables v (some (nested vt)) s =
      if has_value vt.is then join_table v vt s (tables v.field) else some s
  join_step tables v _ s = some s

  then_join :
      (Bytes → Option (List Column))
      → Condition (Value I)
      → Loop I
      → Option OrCons
      → Option (Loop I)
  unfolding join_step
  then_join tables v s none = none
  then_join tables v s (some cons) =
      join_step tables v v.join (record s { calls = s.calls ++ do_where fmt v; or_cons = cons })

  -- A round of the second loop.
  cond_step : (Bytes → Option (List Column)) → Condition (Value I) → Loop I → Option (Loop I)
  unfolding or_step then_join
  cond_step tables v s = then_join tables v s (or_step v.field v.or s.or_cons)

  cond_steps :
      (Bytes → Option (List Column)) → List (Condition (Value I)) → Loop I → Option (Loop I)
  unfolding cond_step
  cond_steps tables [] s = some s
  cond_steps tables (v ∷ cons) s = elim (cond_step tables v s) [
    | none ↦ none
    | some s' ↦ cond_steps tables cons s'
  ]

  or_calls : List (Bytes × List Bytes) → List (Call I)
  or_calls [] = []
  or_calls ((key, css) ∷ cons) =
      where_call (bytes "(" ++ (join (bytes " OR ") css ++ bytes ")")) [] ∷ or_calls cons

  each_equal : List (Bytes × Bytes) → List (Call I)
  each_equal [] = []
  each_equal ((f, v) ∷ uks) = equals f v ∷ each_equal uks

  own_values : List Column → List (Call I)
  own_values [] = []
  own_values (col ∷ cols) =
      (if is_searchable col && is_given col.own then equals col.tag col.own ∷ [] else [])
      ++ own_values cols

  -- Where there are no conditions: by the primary key, a key, the union keys, or else the values of
  -- the model itself. `hasCon` is whether there is a call.
  self_calls : Bytes × Bytes → Bytes × Bytes → List (Bytes × Bytes) → List Column → List (Call I)
  unfolding each_equal own_values
  self_calls (pf, b ∷ bs) key uks cols = equals pf (b ∷ bs) ∷ []
  self_calls (pf, []) (kf, b ∷ bs) uks cols = equals kf (b ∷ bs) ∷ []
  self_calls (pf, []) (kf, []) (uk ∷ uks) cols = each_equal (uk ∷ uks)
  self_calls (pf, []) (kf, []) [] cols = own_values cols

  unfoldable pub from_self : Source → List (Call I)
  unfolding self_calls
  from_self src = self_calls src.pkey src.key src.union_keys src.columns

  loop_calls : Bool → List (Condition (Value I)) → Option (Loop I) → Option (List (Call I))
  unfolding ranges_and_orders or_calls
  loop_calls disable cons none = none
  loop_calls disable cons (some s) =
      some (ranges_and_orders disable cons ++ (s.calls ++ or_calls s.or_cons))

  -- The calls with conditions; none is a panic.
  unfoldable pub with_conditions :
      Bool → Source → List (Condition (Value I)) → Option (List (Call I))
  unfolding cond_steps loop_calls
  with_conditions disable src cons =
      loop_calls disable cons
        (cond_steps src.table_columns cons (record { calls = []; join_count = 0; or_cons = [] }))

  -- The last loop over the columns, with `pks`.
  abbrev pk_order : Column → Call I
  pk_order col =
      order_call
        (t_column col.tag ++ (if col.ext_has (bytes "AO") then bytes " ASC" else bytes " DESC"))

  abbrev own_order : Column → List (Call I)
  own_order col =
      if col.tag_has (bytes "pk")
      then []
      else if col.ext_has (bytes "O")
      then order_call (t_column col.tag ++ bytes " DESC") ∷ []
      else if col.ext_has (bytes "AO")
      then order_call (t_column col.tag ++ bytes " ASC") ∷ []
      else []

  abbrev not_deleted : Column → List (Call I)
  not_deleted col =
      if col.tag_has (bytes "logic")
      then where_call (t_column col.tag ++ bytes " != -1") [] ∷ []
      else []

  unfoldable pub column_calls : List Column → Option (Call I) → List (Call I)
  column_calls [] none = []
  column_calls [] (some pks) = pks ∷ []
  column_calls (col ∷ cols) pks =
      own_order col
      ++ (not_deleted col
          ++ column_calls cols (if col.tag_has (bytes "pk") then some (pk_order col) else pks))

  abbrev finish : Bool → List Column → List (Call I) → Prepared I
  finish disable cols calls = built (calls ++ (if disable then [] else column_calls cols none))

  abbrev finish_some : Bool → List Column → Option (List (Call I)) → Prepared I
  finish_some disable cols none = panicked
  finish_some disable cols (some calls) = finish disable cols calls

  abbrev prepared : Bool → Bool → Source → List (Condition (Value I)) → Prepared I
  prepared disable must src [] =
      let calls = from_self src in
      if must && not (some_of calls) then no_condition else finish disable src.columns calls
  prepared disable must src (v ∷ cons) =
      finish_some disable src.columns (with_conditions disable src (v ∷ cons))

  -- `ReadPrepare` of the model, or of none, with the conditions of its REST.
  unfoldable pub read_prepare :
      Bool → Bool → Option Source → List (Condition (Value I)) → Prepared I
  read_prepare disable must none cons = no_model
  read_prepare disable must (some src) cons =
      if some_of src.columns then prepared disable must src cons else wrong_type
