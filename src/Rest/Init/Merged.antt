-- ===== src/Rest/Init/Merged.antt =====
-- Init in rest/middlewares.go: the conditions that are left after all parameters, by their fields.
use wgo.Common.{
  Option-cases, ◌≡◌, ◌∙◌, ap, refl, sym, inl, inr, true, false, Option, none, some, List, [], ◌∷◌,
  ◌++◌, map, Bytes, bytes, bytes_eq, if◌then◌else◌, Bool-cases, arith,
}
use mathlib.Core.Path.{subst}
use wgo.Rest.{Condition, Value, CType}
use wgo.Rest.Query.{Clock, parse_params}
use wgo.Rest.Init.{
  con_value, param_conditions, Env, by_name, init_param, init_params, values_left, start_env,
}
use wgo.Rest.Init.Panics.{
  names_no_field, is_reserved, by_name-add_conds, add_conds-none, add_conds-some,
}
use wgo.Rest.Init.Made.{set_cond, set_conds}
use wgo.Rest.Init.Slots.{slot_at, last_slot, Distinct, slot_at-set_conds, set_conds-Distinct}

module _ {I : Type 0} where
  abbrev pub made : Option (List (Option (Condition (Value I)))) → List (Condition (Value I))
  made none = []
  made (some []) = []
  made (some (none ∷ cons)) = made (some cons)
  made (some (some con ∷ cons)) = con ∷ made (some cons)

  made-map : (cons : List (Condition (Value I))) → made (some (map some cons)) ≡ cons
  made-map [] = refl
  made-map (con ∷ cons) = ap (λ l. con ∷ l) (made-map cons)

  -- The conditions that a parameter asks for with the values that are left of it.
  abbrev pub asked_by : Bytes → List Bytes → List (Condition (Value I))
  asked_by k [] = []
  asked_by k (v ∷ vs) = if is_reserved k then [] else made (param_conditions k (con_value v vs))

  unfoldable pub asked : List (Bytes × List Bytes) → List (Condition (Value I))
  asked [] = []
  asked ((k, v) ∷ params) = asked_by k (parse_params v) ++ asked params

  set_conds-append :
      (a b conds : List (Condition (Value I)))
      → set_conds (a ++ b) conds ≡ set_conds b (set_conds a conds)
  unfolding set_conds
  set_conds-append [] b conds = refl
  set_conds-append (con ∷ a) b conds = set_conds-append a b (set_cond con conds)

  reserved_keeps :
      (clock : Clock) (k v : Bytes) (vs : List Bytes) (env env' : Env I)
      → is_reserved k ≡ true
      → by_name clock k v vs env ≡ some env'
      → env'.conds ≡ env.conds
  unfolding by_name
  reserved_keeps clock k v vs env env' h e = ground arith

  free_asks :
      (clock : Clock) (k v : Bytes) (vs : List Bytes) (env env' : Env I)
      → is_reserved k ≡ false
      → by_name clock k v vs env ≡ some env'
      → env'.conds ≡ set_conds (made (param_conditions k (con_value v vs))) env.conds
  free_asks clock k v vs env env' h e =
      let e' = sym (by_name-add_conds clock k v vs env h) ∙ e in
      elim (Bool-cases (names_no_field k)) [
        | inl bad ↦ absurd (cc (add_conds-none k v vs env bad, e'))
        | inr good ↦
            let (cons, m, a) = add_conds-some k v vs env good in
            let same = ap made m ∙ made-map cons in
            let kept : env'.conds ≡ set_conds cons env.conds = cc in
            kept ∙ ap (λ l. set_conds l env.conds) (sym same)
      ]

  init_param-asked :
      (clock : Clock) (k : Bytes) (v : List Bytes) (env env' : Env I)
      → values_left clock k v env ≡ some env'
      → env'.conds ≡ set_conds (asked_by k v) env.conds
  unfolding set_conds
  init_param-asked clock k [] env env' e = cc
  init_param-asked clock k (v ∷ vs) env env' e = elim (Bool-cases (is_reserved k)) [
    | inl kept ↦ rw kept (reserved_keeps clock k v vs env env' kept e)
    | inr free ↦ rw free (free_asks clock k v vs env env' free e)
  ]

  abbrev noted : Bytes → Env I → Env I
  noted k env = if bytes_eq k (bytes "pretty") then record env { pretty = true } else env

  pretty_keeps : (k : Bytes) (env : Env I) → (noted k env).conds ≡ env.conds
  pretty_keeps k env = ground arith

  init_params-asked :
      (clock : Clock) (params : List (Bytes × List Bytes)) (env env' : Env I)
      → init_params clock params env ≡ some env'
      → env'.conds ≡ set_conds (asked params) env.conds
  unfolding init_params asked set_conds init_param
  init_params-asked clock [] env env' e = cc
  init_params-asked clock ((k, v) ∷ params) env env' e =
      elim (Option-cases (init_param clock k v env)) [
        | inl fails ↦ absurd (cc (e, ap rest_of fails))
        | inr (mid, m) ↦
            let asks = asked_by k (parse_params v) in
            init_params-asked clock params mid env' (sym (ap rest_of m) ∙ e)
            ∙ ap (set_conds (asked params)) (
                init_param-asked clock k (parse_params v) (noted k env) mid m
                ∙ ap (set_conds asks) (pretty_keeps k env))
            ∙ sym (set_conds-append asks (asked params) env.conds)
      ]
    where
      rest_of : Option (Env I) → Option (Env I)
      rest_of none = none
      rest_of (some mid) = init_params clock params mid

  -- For any parameters in any order that do not make the loop panic: at most one condition is left for
  -- a field, and what it wants in the way of a type is what the last of the parameters asked for that
  -- field and type; if none asked, there is nothing.
  pub init_params-last :
      (clock : Clock) (params : List (Bytes × List Bytes)) (s e : Bytes) (env : Env I)
      → init_params clock params (start_env clock s e) ≡ some env
      → Distinct env.conds
        × ((t : CType) (f : Bytes) → slot_at t f env.conds ≡ last_slot t f (asked params) none)
  unfolding slot_at
  init_params-last clock params s e env run =
      let all = init_params-asked clock params (start_env clock s e) env run in
      (
        subst Distinct (sym all) (set_conds-Distinct (asked params) [] tt),
        λ t f. ap (slot_at t f) all ∙ slot_at-set_conds t f (asked params) [],
      )
