-- ===== src/Rest/Where.antt =====
-- buildWhereRaw and DoWhere in rest/model.go, as the calls that they make of the builder of gorp.
pub mod Marks
pub mod Unsatisfiable
use wgo.Common.{
  ℕ, Bool, true, false, Option, none, some, List, [], ◌∷◌, ◌++◌, Bytes, bytes, if◌then◌else◌,
}
use wgo.Rest.{
  TimeRange, Condition, Arg, string, value, time, Leaf, text, number, pointer, texts, numbers,
  items, time_range, moment, order_by, other, Value, leaf, nested,
}

-- `b.Where(query, args...)`, `b.Order(order)` and `b.Joins(join)`.
pub data Call (I : Type 0) : Type 0 where
  where_call : Bytes → List (Arg I) → Call I
  order_call : Bytes → Call I
  joins_call : Bytes → Call I

-- What fmt makes of values: `%d`, `Sprint` and `%s`; and of a time by `_MYSQL_FORM`.
pub record Printer (I : Type 0) : Type 0 where
  pub decimal : I → Bytes
  pub sprint : I → Bytes
  pub verb : I → Bytes
  pub verb_value : Value I → Bytes
  pub date_time : ℕ → Bytes
  pub count : ℕ → Bytes

-- The loops over `vs` with the flag `first`.
abbrev parts : {A : Type 0} → Bytes → (A → Bytes) → Bool → List A → Bytes
parts sep part first [] = []
parts sep part first (v ∷ vs) = (if first then [] else sep) ++ (part v ++ parts sep part false vs)

-- `(`, the values with `sep` between them, `)`
unfoldable pub group : {A : Type 0} → Bytes → (A → Bytes) → List A → Bytes
group sep part vs = bytes "(" ++ (parts sep part true vs ++ bytes ")")

abbrev pub quoted : Bytes → Bytes
quoted s = bytes "'" ++ (s ++ bytes "'")

-- `<table>.`<field>``
unfoldable pub column : Bytes → Bytes → Bytes
column table field = table ++ (bytes ".`" ++ (field ++ bytes "`"))

abbrev pub t_column : Bytes → Bytes
t_column field = column (bytes "T") field

module _ {I : Type 0} (fmt : Printer I) where
  abbrev in_list : {A : Type 0} → (A → Bytes) → List A → Bytes
  in_list print vs = group (bytes ",") (λ v. quoted (print v)) vs

  abbrev self : Bytes → Bytes
  self s = s

  -- `buildWhereRaw`, for a pointer that is not nil.
  unfoldable pub build_where_raw : Bytes → Bytes → Option (Value I) → List (Call I)
  build_where_raw table field (some (leaf (pointer v))) =
      where_call (column table field ++ bytes " = ?") (v ∷ []) ∷ []
  build_where_raw table field (some (leaf (text s))) =
      where_call (column table field ++ bytes " = ?") (string s ∷ []) ∷ []
  build_where_raw table field (some (leaf (number n))) =
      where_call (column table field ++ bytes " = ?") (value n ∷ []) ∷ []
  build_where_raw table field (some (leaf (texts vs))) =
      where_call (column table field ++ (bytes " IN " ++ in_list self vs)) [] ∷ []
  build_where_raw table field (some (leaf (numbers vs))) =
      where_call (column table field ++ (bytes " IN " ++ in_list fmt.decimal vs)) [] ∷ []
  build_where_raw table field (some (leaf (items vs))) =
      where_call (column table field ++ (bytes " IN " ++ in_list fmt.sprint vs)) [] ∷ []
  build_where_raw table field _ = []

  unfoldable pub where_raw : Bytes → List (Call I)
  where_raw [] = []
  where_raw (b ∷ bs) = where_call (bytes "(" ++ ((b ∷ bs) ++ bytes ")")) [] ∷ []

  unfoldable pub where_not : Bytes → Option (Value I) → List (Call I)
  where_not field (some (leaf (text s))) =
      where_call (t_column field ++ bytes " != ?") (string s ∷ []) ∷ []
  where_not field (some (leaf (texts vs))) =
      where_call (t_column field ++ (bytes " NOT IN " ++ in_list self vs)) [] ∷ []
  where_not field (some (leaf (items vs))) =
      where_call (t_column field ++ (bytes " NOT IN " ++ in_list fmt.verb vs)) [] ∷ []
  where_not field _ = []

  -- `(<column><op>'<v>' OR ...)`, where `op` has the opening quote and `close` what stands behind.
  abbrev any_of : {A : Type 0} → Bytes → Bytes → Bytes → (A → Bytes) → List A → List (Call I)
  any_of field op close print vs =
      where_call (group (bytes " OR ") (λ v. t_column field ++ (op ++ (print v ++ close))) vs) []
      ∷ []

  unfoldable pub where_gt : Bytes → Option (Value I) → List (Call I)
  where_gt field (some (leaf (text s))) =
      where_call (t_column field ++ bytes " >= ?") (string s ∷ []) ∷ []
  where_gt field (some (leaf (texts vs))) = any_of field (bytes " >= '") (bytes "'") self vs
  where_gt field (some (leaf (time_range tr))) =
      where_call (t_column field ++ bytes " >= ?") (time tr.start ∷ []) ∷ []
  where_gt field (some (leaf (items vs))) = any_of field (bytes " >= '") (bytes "'") fmt.verb vs
  where_gt field _ = []

  unfoldable pub where_lt : Bytes → Option (Value I) → List (Call I)
  where_lt field (some (leaf (text s))) =
      where_call (t_column field ++ bytes " < ?") (string s ∷ []) ∷ []
  where_lt field (some (leaf (texts vs))) = any_of field (bytes " < '") (bytes "'") self vs
  where_lt field (some (leaf (moment t))) =
      where_call (t_column field ++ bytes " < ?") (time t ∷ []) ∷ []
  where_lt field (some (leaf (items vs))) = any_of field (bytes " < '") (bytes "'") fmt.verb vs
  where_lt field _ = []

  unfoldable pub where_like : Bytes → Option (Value I) → List (Call I)
  where_like field (some (leaf (text s))) =
      where_call (t_column field ++ bytes " LIKE ?") (string (bytes "%" ++ (s ++ bytes "%")) ∷ [])
      ∷ []
  where_like field (some (leaf (texts vs))) = any_of field (bytes " LIKE '%") (bytes "%'") self vs
  where_like field (some (leaf (items vs))) =
      any_of field (bytes " LIKE '%") (bytes "%'") fmt.verb vs
  where_like field _ = []

  -- `DoWhere`
  unfoldable pub do_where : Condition (Value I) → List (Call I)
  unfolding where_raw build_where_raw where_not where_gt where_lt where_like
  do_where v =
      where_raw v.raw
      ++ (build_where_raw (bytes "T") v.field v.is
          ++ (build_where_raw (bytes "T") v.field v.not
              ++ (where_not v.field v.not
                  ++ (where_gt v.field v.gt
                      ++ (where_lt v.field v.lt ++ where_like v.field v.like)))))
