-- ===== src/Rest/Tests.antt =====
-- rest/query.go, model.go, action.go and middlewares.go: runs, and the theorems at concrete requests.
use wgo.Common.{
  ℕ, ◌+◌, ◌≡◌, ◌≢◌, ◌↔◌, refl, inl, Bool, true, false, Option, none, some, List, [], ◌∷◌, ◌++◌,
  Bytes, bytes, bytes_eq, All, split, cut, ◌||◌,
}
use wgo.Common.Int.{pos, negsuc}
use wgo.Rest.{
  TimeRange, Condition, string, text, texts, Value, leaf, CType, only_field, condition_of, merge,
  fill, get_condition,
}
use wgo.Rest.Query.{
  Clock, new_pagination, wrap, ctype_by_prefix, parse_params, merge_each, set_param_conds,
}
use wgo.Rest.Init.{
  Env, start_env, init_param, init_params, param_conditions, conditions_for, plain_condition,
  join_condition, set_all_conds, set_made, add_conds, by_name, con_value,
}
use wgo.Rest.Init.Panics.{names_no_field, init_param-none}
use wgo.Rest.Init.Slots.{slot_at, last_slot, Distinct}
use wgo.Rest.Init.Merged.{asked, init_params-last}
use wgo.Rest.Where.{Call, where_call, order_call, Printer, do_where, column, t_column}
use wgo.Rest.Where.Marks.{marks, Matched, do_where-Matched}
use wgo.Rest.Prepare.{
  Column, Source, Prepared, built, no_condition, read_prepare, from_self, with_conditions,
  column_calls, some_of,
}
use wgo.Rest.Prepare.Errors.{IsBlank, read_prepare-no_condition}
use wgo.Rest.Prepare.Deleted.{Has, excludes, read_prepare-Excluded, unmarked, read_prepare-unmark}
use wgo.Rest.Prepare.Contradiction.{read_prepare-not}
use wgo.Rest.Select.{
  set_conditions, take_columns, take_column, take_join, take_raw, take_range, take_order,
  take_searchable, parse_condition,
}
use wgo.Rest.Select.Admitted.{admitted, set_conditions-admitted}
use wgo.Rest.Action.{Reading, pre_search}
use wgo.Rest.Action.Undated.{pre_search-undated}

-- A clock that reads any text as its first byte.
abbrev first_byte : Bytes → Bytes → Option ℕ
first_byte format [] = none
first_byte format (b ∷ bs) = some b

abbrev clock : Clock
clock = record { parse = first_byte; end_of_today = 1000; zero_time = 0 }

abbrev digits : Printer ℕ
digits = record {
  decimal = λ n. n ∷ [];
  sprint = λ n. n ∷ [];
  verb = λ n. n ∷ [];
  verb_value = λ v. [];
  date_time = λ t. t ∷ [];
  count = λ n. (n + 48) ∷ [];
}

page_far :
    new_pagination (pos 5000) (pos 3) ≡ record { page = 3; per_page = 1000; offset = pos 2000 }
unfolding new_pagination wrap
page_far = refl

-- The offset of a page far away is negative.
page_wraps : (new_pagination (pos 1000) (pos 9300000000000001)).offset ≡ negsuc 9146744073709551615
unfolding new_pagination wrap
page_wraps = refl

abbrev env0 : Env ℕ
env0 = start_env clock [] []

init_param-none_example :
    (init_param clock (bytes "!_") (bytes "x" ∷ []) env0 ≡ none)
    ↔ ((parse_params (bytes "x" ∷ []) ≢ []) × (names_no_field (bytes "!_") ≡ true))
unfolding bytes_eq
init_param-none_example = init_param-none clock (bytes "!_") (bytes "x" ∷ []) env0 refl

abbrev asking : List (Bytes × List Bytes)
asking =
    (bytes "name", bytes "a" ∷ [])
    ∷ (bytes ">age", bytes "3" ∷ [])
    ∷ (bytes "_name", bytes "b,c" ∷ [])
    ∷ (bytes "!name", [] ∷ bytes "d" ∷ [])
    ∷ (bytes "page", bytes "2" ∷ [])
    ∷ []

abbrev or_else_env : Option (Env ℕ) → Env ℕ
or_else_env none = env0
or_else_env (some env) = env

abbrev env_after : Env ℕ
env_after = record env0 {
  conds =
      record (only_field (bytes "name")) {
        is = some (leaf (texts (bytes "b" ∷ bytes "c" ∷ [])));
        not = some (leaf (text (bytes "d")));
      }
      ∷ record (only_field (bytes "age")) { gt = some (leaf (text (bytes "3"))) }
      ∷ [];
  page = bytes "2";
}

asking_run : init_params clock asking env0 ≡ some env_after
unfolding init_params init_param by_name add_conds set_made param_conditions conditions_for
    plain_condition join_condition condition_of fill set_all_conds set_param_conds merge_each merge
    con_value parse_params bytes_eq split cut ctype_by_prefix
asking_run = refl

init_params-last_example :
    Distinct env_after.conds
    × ((t : CType) (f : Bytes) → slot_at t f env_after.conds ≡ last_slot t f (asked asking) none)
init_params-last_example = init_params-last clock asking [] [] env_after asking_run

abbrev not_d : Condition (Value ℕ)
not_d = record (only_field (bytes "name")) { not = some (leaf (text (bytes "d?"))) }

do_where-Matched_example : All Matched (do_where digits not_d)
unfolding marks
do_where-Matched_example = do_where-Matched digits not_d refl refl tt tt tt tt tt

abbrev has_option : List Bytes → Bytes → Bool
has_option [] o = false
has_option (p ∷ ps) o = bytes_eq p o || has_option ps o

abbrev plain_column : Bytes → List Bytes → List Bytes → Bytes → Column
plain_column tag options ext own = record {
  tag = tag;
  ext_tag = tag;
  type_name = bytes "*string";
  tag_has = has_option options;
  ext_has = has_option ext;
  own = own;
}

abbrev people : Bytes → Source
people name = record {
  columns =
      plain_column (bytes "id") (bytes "pk" ∷ []) [] []
      ∷ plain_column (bytes "name") [] (bytes "C" ∷ []) name
      ∷ plain_column (bytes "status") (bytes "logic" ∷ []) [] []
      ∷ plain_column (bytes "created") [] (bytes "TR" ∷ bytes "O" ∷ []) []
      ∷ [];
  pkey = (bytes "id", []);
  key = ([], []);
  union_keys = [];
  table_columns = λ t. none;
}

abbrev calls_of : Prepared ℕ → List (Call ℕ)
calls_of (built calls) = calls
calls_of _ = []

-- A row by its columns, and what it meets: the two comparisons of a column with a string.
abbrev Meets : (Bytes → Bytes) → Call ℕ → Type 0
Meets row c =
    ((f s : Bytes) → c ≡ where_call (t_column f ++ bytes " = ?") (string s ∷ []) → row f ≡ s)
    × ((f s : Bytes) → c ≡ where_call (t_column f ++ bytes " != ?") (string s ∷ []) → row f ≢ s)

abbrev not_d_calls : List (Call ℕ)
not_d_calls =
    where_call (bytes "T.`name` = ?") (string (bytes "d?") ∷ [])
    ∷ where_call (bytes "T.`name` != ?") (string (bytes "d?") ∷ [])
    ∷ where_call (bytes "T.`status` != -1") []
    ∷ order_call (bytes "T.`created` DESC")
    ∷ order_call (bytes "T.`id` DESC")
    ∷ []

not_d_made : read_prepare digits false true (some (people [])) (not_d ∷ []) ≡ built not_d_calls
unfolding read_prepare with_conditions do_where column_calls column bytes_eq
not_d_made = refl

read_prepare-not_example : ¬ All (Meets (λ f. bytes "x")) not_d_calls
read_prepare-not_example =
    read_prepare-not digits Meets (λ row f. row f) (λ row f s m. m.0 f s refl)
      (λ row f s m. m.1 f s refl) false true (people []) (not_d ∷ []) not_d_calls not_d (bytes "d?")
      not_d_made (inl refl) refl (λ f. bytes "x")

read_prepare-Excluded_example :
    All
      (λ col. col.tag_has (bytes "logic") ≡ true → Has (excludes col) not_d_calls)
      (people []).columns
read_prepare-Excluded_example =
    read_prepare-Excluded digits true (people []) (not_d ∷ []) not_d_calls not_d_made

read_prepare-unmark_example :
    read_prepare digits true false (some (unmarked digits (people (bytes "a")))) []
    ≡ read_prepare digits true false (some (people (bytes "a"))) []
read_prepare-unmark_example = read_prepare-unmark digits false (people (bytes "a")) []

read_prepare-no_condition_example :
    (read_prepare digits false true (some (people [])) [] ≡ no_condition) ↔ (
      (◌≡◌ {A = Bool} true true)
      × (some_of (people []).columns ≡ true)
      × (◌≡◌ {A = List (Condition (Value ℕ))} [] [])
      × IsBlank (people []))
read_prepare-no_condition_example = read_prepare-no_condition digits false true (people []) []

blank_refused : read_prepare digits false true (some (people [])) [] ≡ no_condition
unfolding read_prepare from_self bytes_eq
blank_refused = refl

set_conditions-admitted_example :
    (taken : List (Condition (Value ℕ))) × (set_conditions clock
        (some (people []).columns)
        (some not_d ∷ none ∷ [])
        []
      ≡ [] ++ taken)
    × All (λ con. admitted (people []).columns con ≡ true) taken
set_conditions-admitted_example =
    set_conditions-admitted clock (people []).columns (some not_d ∷ none ∷ []) []

not_d_taken :
    set_conditions clock (some (people []).columns) (some not_d ∷ none ∷ []) [] ≡ not_d ∷ []
unfolding set_conditions take_columns take_column take_join take_raw take_range take_order
    take_searchable get_condition parse_condition bytes_eq
not_d_taken = refl

abbrev nothing_read : Reading ℕ
nothing_read = record { conditions = []; pagination = none; fields = none }

abbrev january : TimeRange
january = record { start = 1; end = 31 }

pre_search-undated_example :
    pre_search clock
      (some (people []).columns)
      (record env_after { time_range = some january })
      none
      nothing_read
    ≡ pre_search clock
        (some (people []).columns)
        (record env_after { time_range = none })
        none
        nothing_read
unfolding bytes_eq
pre_search-undated_example =
    pre_search-undated clock (people []).columns env_after (some january) none nothing_read
      ((refl, refl), ((refl, refl), ((refl, refl), ((refl, refl), tt))))
