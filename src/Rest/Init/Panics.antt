-- ===== src/Rest/Init/Panics.antt =====
-- Init in rest/middlewares.go: for which parameters it panics.
use wgo.Common.{
  ◌≡◌, ◌≢◌, ◌↔◌, ◌∙◌, ap, refl, inl, inr, Bool, true, false, ◌||◌, none, some, List, [], ◌∷◌, map,
  Bytes, bytes, bytes_eq, if◌then◌else◌, Bool-cases, arith,
}
use wgo.Rest.{Condition, Leaf, Value}
use wgo.Rest.Query.{ctype_by_prefix, Clock, parse_params}
use wgo.Rest.Init.{
  is_empty, is_is, trim_underscore, con_value, param_conditions, Env, add_conds, by_name,
  init_param, values_left, with_conds, set_made,
}
use wgo.Rest.Init.Made.{
  Made, ctype_by_prefix-takes, conditions_for-Made, set_all_conds-none, set_conds,
  set_all_conds-set_conds,
}

-- The key without its prefix and one underscore.
abbrev pub bare_key : Bytes → Bytes
bare_key [] = []
bare_key (b ∷ bs) = trim_underscore (if is_is (ctype_by_prefix b) then b ∷ bs else bs)

abbrev one_of : Bytes → List Bytes → Bool
one_of k [] = false
one_of k (t ∷ ts) = bytes_eq k t || one_of k ts

module _ {I : Type 0} where
  param_conditions-Made :
      (k : Bytes) (cv : Leaf I) → is_empty (bare_key k) ≡ false → Made (param_conditions k cv)
  unfolding param_conditions
  param_conditions-Made [] cv h = absurd (cc)
  param_conditions-Made (b ∷ bs) cv h =
      conditions_for-Made (ctype_by_prefix b) (bare_key (b ∷ bs)) cv (ctype_by_prefix-takes b) h

-- The keys that name no field.
abbrev pub names_no_field : Bytes → Bool
names_no_field k = one_of k (
    bytes ""
    ∷ bytes "_"
    ∷ bytes "!"
    ∷ bytes "~"
    ∷ bytes ">"
    ∷ bytes "<"
    ∷ bytes "!_"
    ∷ bytes "~_"
    ∷ bytes ">_"
    ∷ bytes "<_"
    ∷ [])

is_empty-bare_key : (k : Bytes) → is_empty (bare_key k) ≡ names_no_field k
unfolding ctype_by_prefix bytes_eq
is_empty-bare_key [] = refl
is_empty-bare_key (b ∷ []) = ground arith
is_empty-bare_key (b ∷ c ∷ []) = ground arith
is_empty-bare_key (b ∷ c ∷ d ∷ k) = ground arith

-- The keys that Init keeps to itself.
abbrev pub is_reserved : Bytes → Bool
is_reserved k = one_of k (
    bytes "start"
    ∷ bytes "end"
    ∷ bytes "date"
    ∷ bytes "orderby"
    ∷ bytes "fields"
    ∷ bytes "per_page"
    ∷ bytes "page"
    ∷ [])

pub by_name-add_conds :
    {I : Type 0} (clock : Clock) (k v : Bytes) (vs : List Bytes) (env : Env I)
    → is_reserved k ≡ false
    → by_name clock k v vs env ≡ add_conds k v vs env
unfolding by_name
by_name-add_conds clock k v vs env h = ground arith

empty_of : (k : Bytes) → is_empty k ≡ true → k ≡ []
empty_of [] h = refl
empty_of (b ∷ k) h = cc

made-none :
    {I : Type 0} (k : Bytes) (cv : Leaf I) (env : Env I)
    → bare_key k ≡ []
    → set_made env (param_conditions k cv) ≡ none
unfolding param_conditions set_made
made-none [] cv env e = refl
made-none (b ∷ bs) cv env e =
    let (cons, made, fails) = set_all_conds-none (ctype_by_prefix b) cv env.conds in
    rw e (ap (set_made env) made ∙ ap (with_conds env) fails)

module _ {I : Type 0} (k v : Bytes) (vs : List Bytes) (env : Env I) where
  pub add_conds-none : names_no_field k ≡ true → add_conds k v vs env ≡ none
  unfolding add_conds
  add_conds-none h =
      made-none k (con_value v vs) env (empty_of (bare_key k) (is_empty-bare_key k ∙ h))

  pub add_conds-some :
      names_no_field k ≡ false
      → (cons : List (Condition (Value I))) × (param_conditions k (con_value v vs)
          ≡ some (map some cons))
        × (add_conds k v vs env ≡ some (record env { conds = set_conds cons env.conds }))
  unfolding add_conds set_made
  add_conds-some h =
      let (cons, e) = param_conditions-Made k (con_value v vs) (is_empty-bare_key k ∙ h) in
      (cons, e, ap (set_made env) e ∙ ap (with_conds env) (set_all_conds-set_conds cons env.conds))

values_left-none :
    {I : Type 0} (clock : Clock) (k : Bytes) (v : List Bytes) (env : Env I)
    → is_reserved k ≡ false
    → (values_left clock k v env ≡ none) ↔ ((v ≢ []) × (names_no_field k ≡ true))
values_left-none clock k [] env h = (λ e. absurd (cc), λ e. absurd (e.0 refl))
values_left-none clock k (v ∷ vs) env h = elim (Bool-cases (names_no_field k)) [
  | inl bad ↦ (
    λ e. (λ (f : v ∷ vs ≡ []). (cc), bad),
    λ e. by_name-add_conds clock k v vs env h ∙ add_conds-none k v vs env bad,
  )
  | inr good ↦
      let made = (add_conds-some k v vs env good).2 in
      let same = by_name-add_conds clock k v vs env h in (λ e. absurd (cc), λ e. absurd (cc))
]

-- For any parameter but those that Init keeps to itself: the loop panics at it exactly when it has a
-- value that is not empty and its key names no field: nothing is left of the key but a prefix
-- `!`, `~`, `>` or `<` and an underscore.
pub init_param-none :
    {I : Type 0} (clock : Clock) (k : Bytes) (v : List Bytes) (env : Env I)
    → is_reserved k ≡ false
    → (init_param clock k v env ≡ none) ↔ ((parse_params v ≢ []) × (names_no_field k ≡ true))
unfolding init_param
init_param-none clock k v env h = values_left-none clock k (parse_params v) _ h
