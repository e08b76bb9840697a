-- ===== src/Params/Tests.antt =====
-- Arguments for the tests, and the theorems at them.
use wgo.Common.{
  ℕ, ◌≡◌, refl, Bool, true, false, Option, none, some, List, [], ◌∷◌, Bytes, bytes, bytes_eq,
  at_key, lower,
}
use wgo.Params.{set_param, parse_pair, parse_pairs, parse_first, new_params, itf, destructure}
use wgo.Params.Names.{arguments, last_pair, itf-new_params}

data Value : Type 0 where
  text_value : Bytes → Value
  number : ℕ → Value
  nil_slice : Value
  options : Value

abbrev is_nil : Value → Bool
is_nil (text_value s) = false
is_nil (number n) = false
is_nil nil_slice = true
is_nil options = false

abbrev as_string : Value → Option Bytes
as_string (text_value s) = some s
as_string (number n) = none
as_string nil_slice = none
as_string options = none

-- One map, with the entry limit.
abbrev as_map : Value → Option (List (Bytes × Value))
as_map (text_value s) = none
as_map (number n) = none
as_map nil_slice = none
as_map options = some ((bytes "Limit", number 5) ∷ [])

abbrev limits : List (Bytes × Value)
limits = (bytes "Limit", number 1) ∷ (bytes "limit", number 2) ∷ (bytes "LIMIT", nil_slice) ∷ []

limit_run : last_pair lower is_nil limits (bytes "limit") none ≡ some (number 2)
unfolding last_pair bytes_eq
limit_run = refl

itf-new_params_example :
    itf lower
      (new_params lower is_nil as_string as_map (arguments as_string text_value limits))
      (bytes "limit")
    ≡ last_pair lower is_nil limits (bytes "limit") none
itf-new_params_example =
    itf-new_params lower is_nil as_string text_value as_map limits (bytes "limit")
      (refl, refl, (refl, refl, (refl, refl, tt))) (λ name. refl)

destructure_run :
    destructure lower
      (new_params lower is_nil as_string as_map (text_value (bytes "A") ∷ number 3 ∷ []))
      ((bytes "a", nil_slice) ∷ (bytes "b", number 4) ∷ [])
    ≡ (true, (bytes "a", number 3) ∷ (bytes "b", number 4) ∷ [])
unfolding destructure new_params parse_pairs parse_pair parse_first set_param at_key bytes_eq
destructure_run = refl
