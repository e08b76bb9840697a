-- ===== src/Rest/Query.antt =====
-- rest/query.go: pages, times, orders and the conditions of a request. Letters change their case as
-- in ASCII.
use wgo.Common.{
  ℕ, zero, suc, ◌+◌, ◌-◌, ◌*◌, ◌%◌, ◌^◌, Bool, true, false, not, ◌&&◌, Option, none, some, List, [],
  ◌∷◌, ◌++◌, Bytes, bytes, bytes_eq, has_byte, cut, upper, length, ltb, ◌==◌, if◌then◌else◌,
}
use wgo.Common.Int.{ℤ, pos, negsuc}
use wgo.Rest.{
  TimeRange, OrderBy, Condition, Value, CType, is_type, not_type, like_type, gt_type, lt_type,
  merge,
}

unfoldable pub ctype_by_prefix : ℕ → CType
ctype_by_prefix p =
    if p == b'!'
    then not_type
    else if p == b'~'
    then like_type
    else if p == b'>'
    then gt_type
    else if p == b'<'
    then lt_type
    else is_type

pub record Pagination : Type 0 where
  pub page : ℕ
  pub per_page : ℕ
  pub offset : ℤ

-- `if n <= 0 { n = d }`
abbrev pub positive_or : ℕ → ℤ → ℕ
positive_or d (pos zero) = d
positive_or d (pos (suc n)) = suc n
positive_or d (negsuc n) = d

-- An int of 64 bits.
unfoldable pub wrap : ℕ → ℤ
wrap n = let m = n % 2 ^ 64 in if ltb m (2 ^ 63) then pos m else negsuc (2 ^ 64 - 1 - m)

abbrev pub max_per_page : ℕ
max_per_page = 1000

-- `NewPagination` for the numbers that IntByIndex gives.
unfoldable pub new_pagination : ℤ → ℤ → Pagination
new_pagination per_page page =
    let page' = positive_or 1 page in
    let given = positive_or 100 per_page in
    let per_page' = if ltb max_per_page given then max_per_page else given in
    record { page = page'; per_page = per_page'; offset = wrap ((page' - 1) * per_page') }

-- `parseParams`
unfoldable pub parse_params : List Bytes → List Bytes
parse_params [] = []
parse_params ([] ∷ vs) = parse_params vs
parse_params ((b ∷ bs) ∷ vs) = (b ∷ bs) ∷ parse_params vs

-- The time as the code asks for it, in nanoseconds: `time.ParseInLocation` by its format and text,
-- the last millisecond of today, and the zero time.
pub record Clock : Type 0 where
  pub parse : Bytes → Bytes → Option ℕ
  pub end_of_today : ℕ
  pub zero_time : ℕ

abbrev pub second : ℕ
second = 1000000000

-- `strings.Index(s, "-") > 0`
abbrev pub dash_within : Bytes → Bool
dash_within [] = false
dash_within (b ∷ bs) = not (b == b'-') && has_byte b'-' bs

-- The format and the step, by the length of the text; of no length that is known, both are zero.
unfoldable pub format_of : Bytes → Bytes × ℕ
format_of s =
    if length s == 10
    then (if dash_within s
        then (bytes "2006-01-02", 86400 * second - 1)
        else (bytes "2006010215", 3600 * second - 1))
    else if length s == 8
    then (bytes "20060102", 86400 * second - 1)
    else if length s == 12
    then (bytes "200601021504", 60 * second - 1)
    else if length s == 14
    then (bytes "20060102150405", second - 1)
    else ([], 0)

-- The end for a start `ts`: of the end's text the format decides, if it is later than `ts`.
abbrev pub end_from : Clock → Bytes → ℕ → ℕ → Bytes → ℕ
end_from clock format step ts [] = clock.end_of_today
end_from clock format step ts (b ∷ bs) = elim (clock.parse format (b ∷ bs)) [
  | none ↦ ts + step
  | some te ↦ if ltb ts te then te + step else ts + step
]

-- `getTimeRange`
unfoldable pub get_time_range : Clock → Bytes → Bytes → TimeRange
get_time_range clock s e =
    let (format, step) = format_of s in
    elim (clock.parse format s) [
      | none ↦ record { start = clock.zero_time; end = clock.zero_time }
      | some ts ↦ record { start = ts; end = end_from clock format step ts e }
    ]

abbrev pub or_empty : Option Bytes → Bytes
or_empty none = []
or_empty (some s) = s

-- The range that `setTimeRangeFromDate` sets.
unfoldable pub time_range_from_date : Clock → List Bytes → TimeRange
time_range_from_date clock [] = get_time_range clock [] []
time_range_from_date clock (p ∷ []) = let (s, e) = cut b',' p in get_time_range clock s (or_empty e)
time_range_from_date clock (s ∷ e ∷ rest) = get_time_range clock s e

-- The range that `setTimeRangeFromStartEnd` sets, or none if it sets none.
unfoldable pub time_range_from_start_end : Clock → Bytes → Bytes → Option TimeRange
time_range_from_start_end clock [] e = none
time_range_from_start_end clock (b ∷ bs) [] = some (get_time_range clock (b ∷ bs) [])
time_range_from_start_end clock (b ∷ bs) (c ∷ cs) =
    if length bs == length cs then some (get_time_range clock (b ∷ bs) (c ∷ cs)) else none

-- The order that `setOrderBy` sets.
unfoldable pub order_by_of : List Bytes → OrderBy
order_by_of [] = record { field = []; sort = [] }
order_by_of (p ∷ rest) =
    let (field, behind) = cut b',' p in
    record {
      field = field;
      sort = if bytes_eq (upper (or_empty behind)) (bytes "ASC") then bytes "ASC" else bytes "DESC";
    }

module _ {I : Type 0} where
  -- `ec.Merge(con)` for each condition of con's field, and whether there is one.
  unfoldable pub merge_each :
      Condition (Value I) → List (Condition (Value I)) → List (Condition (Value I)) × Bool
  merge_each con [] = ([], false)
  merge_each con (ec ∷ rest) =
      let (rest', found) = merge_each con rest in
      if bytes_eq ec.field con.field then (merge ec con ∷ rest', true) else (ec ∷ rest', found)

  -- `SetParamConds`; the read of a nil condition's field panics, which is none.
  unfoldable pub set_param_conds :
      Option (Condition (Value I))
      → List (Condition (Value I))
      → Option (List (Condition (Value I)))
  unfolding merge_each
  set_param_conds none conds = none
  set_param_conds (some con) conds =
      let (conds', found) = merge_each con conds in
      some (if found then conds' else conds' ++ con ∷ [])
