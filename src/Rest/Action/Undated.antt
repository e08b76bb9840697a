-- ===== src/Rest/Action/Undated.antt =====
-- PreSearch in rest/action.go: the range of times of a request.
use wgo.Common.{◌≡◌, refl, ap, Option, none, some, List, bytes, All}
use wgo.Rest.{leaf, time_range, range_type, condition_of, fill, TimeRange}
use wgo.Rest.Query.{Clock, Pagination}
use wgo.Rest.Init.{Env}
use wgo.Rest.Prepare.{Column}
use wgo.Rest.Select.Dropped.{NotCalled, set_conditions-search}
use wgo.Rest.Action.{Reading, set_new, set_params, set_order, set_page, set_fields, pre_search}

module _ {I : Type 0} (clock : Clock) (cols : List Column) where
  set_new-range :
      (tr : TimeRange) (r : Reading I)
      → All (NotCalled (bytes "TR")) cols
      → set_new clock (some cols) range_type (bytes "TR") (leaf (time_range tr)) r ≡ r
  unfolding set_new condition_of fill
  set_new-range tr r h =
      ap (λ cons. record r { conditions = cons })
        (set_conditions-search clock (leaf (time_range tr)) cols _ r.conditions h refl)

  -- For a model none of whose columns is called `TR`, and any request: a search reads the same
  -- whatever range of times the request asks for, by `date` or by `start` and `end`.
  pub pre_search-undated :
      (env : Env I) (range : Option TimeRange) (page : Option Pagination) (r : Reading I)
      → All (NotCalled (bytes "TR")) cols
      → pre_search clock (some cols) (record env { time_range = range }) page r
        ≡ pre_search clock (some cols) (record env { time_range = none }) page r
  unfolding pre_search
  pre_search-undated env none page r h = refl
  pre_search-undated env (some tr) page r h =
      ap (λ s. set_fields clock (some cols) env.fields (set_params clock (some cols) env.conds s))
        (set_new-range tr
          (set_order clock (some cols) env.order_by (set_page clock (some cols) page r)) h)
