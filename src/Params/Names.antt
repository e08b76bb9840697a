-- ===== src/Params/Names.antt =====
-- utils/params.go: which value a name has.
use wgo.Common.{
  and_false, ◌%◌, ◌≡◌, refl, ap, ◌∙◌, inl, inr, Bool, true, false, ◌&&◌, not, Option, none, some,
  List, [], ◌∷◌, Bytes, bytes_eq, ◌==◌, if◌then◌else◌, length, at_key, arith, Bool-cases,
}
use wgo.Params.{set_param, parse_pair, parse_pairs, parse_first, new_params, itf}

module _ {V : Type 0} where
  -- The value of the last argument pair with this name, as `lower` maps it, whose value is not nil, before
  -- which `old` counts.
  unfoldable pub last_pair :
      (Bytes → Bytes) → (V → Bool) → List (Bytes × V) → Bytes → Option V → Option V
  last_pair lower is_nil [] key old = old
  last_pair lower is_nil ((name, v) ∷ ps) key old =
      last_pair lower is_nil ps key
        (if bytes_eq (lower name) (lower key) && not (is_nil v) then some v else old)

module _ {V : Type 0} (as_string : V → Option Bytes) (text : Bytes → V) where
  -- The arguments name, value, name, value and so on.
  abbrev pub arguments : List (Bytes × V) → List V
  arguments [] = []
  arguments ((name, v) ∷ ps) = text name ∷ v ∷ arguments ps

  abbrev pub AllNamed : List (Bytes × V) → Type 0
  AllNamed [] = Unit
  AllNamed ((name, v) ∷ ps) =
      (as_string (text name) ≡ some name) × ((length name == 0) ≡ false) × AllNamed ps

module _ {V : Type 0} (lower : Bytes → Bytes) (is_nil : V → Bool) (as_string : V → Option Bytes)
    (text : Bytes → V) where
  at_key-set_param :
      (name key : Bytes) (v : V) (params : List (Bytes × V))
      → at_key (set_param is_nil name v params) key
        ≡ (if bytes_eq name key && not (is_nil v) then some v else at_key params key)
  unfolding set_param at_key
  at_key-set_param name key v params = elim (Bool-cases (is_nil v)) [
    | inl e ↦ rw e (ground (arith, and_false (bytes_eq name key)))
    | inr e ↦ rw e (ground arith)
  ]

  at_key-parse_pair :
      (name key : Bytes) (v : V) (params : List (Bytes × V))
      → as_string (text name) ≡ some name
      → (length name == 0) ≡ false
      → at_key (parse_pair lower is_nil as_string (text name) v params) key
        ≡ (if bytes_eq (lower name) key && not (is_nil v) then some v else at_key params key)
  unfolding parse_pair
  at_key-parse_pair [] key v params e ne = cc ne
  at_key-parse_pair (c ∷ cs) key v params e ne =
      rw (e, parse_pair) (at_key-set_param (lower (c ∷ cs)) key v params)

  at_key-parse_pairs :
      (ps : List (Bytes × V)) (key : Bytes) (params : List (Bytes × V))
      → AllNamed as_string text ps
      → at_key (parse_pairs lower is_nil as_string (arguments as_string text ps) params) (lower key)
        ≡ last_pair lower is_nil ps key (at_key params (lower key))
  unfolding parse_pairs last_pair
  at_key-parse_pairs [] key params h = refl
  at_key-parse_pairs ((name, v) ∷ ps) key params h =
      at_key-parse_pairs ps key _ h.2
      ∙ ap (last_pair lower is_nil ps key) (at_key-parse_pair name (lower key) v params h.0 h.1)

  even_arguments : (ps : List (Bytes × V)) → (length (arguments as_string text ps) % 2 == 0) ≡ true
  even_arguments [] = refl
  even_arguments ((name, v) ∷ ps) = ground (arith, even_arguments ps)

  module _ (as_map : V → Option (List (Bytes × V))) where
    -- For any function `lower` as strings.ToLower, and arguments that alternate names, not empty and
    -- no maps, and values: the value of a name is that of the last pair whose name `lower` maps to
    -- the same and whose value is not a nil pointer, and without such a pair the name has none.
    pub itf-new_params :
        (ps : List (Bytes × V)) (key : Bytes)
        → AllNamed as_string text ps
        → ((name : Bytes) → as_map (text name) ≡ none)
        → itf lower (new_params lower is_nil as_string as_map (arguments as_string text ps)) key
          ≡ last_pair lower is_nil ps key none
    unfolding new_params itf last_pair parse_first at_key
    itf-new_params [] key h no_map = refl
    itf-new_params ((name, v) ∷ ps) key h no_map = rw (even_arguments ((name, v) ∷ ps)) (
        at_key-parse_pairs ((name, v) ∷ ps) key (parse_first lower is_nil as_map (text name)) h
        ∙ ap (last_pair lower is_nil ((name, v) ∷ ps) key) (rw (no_map name, parse_first) refl))

module _ {V : Type 0} (lower : Bytes → Bytes) (is_nil : V → Bool) (as_string : V → Option Bytes)
    (as_map : V → Option (List (Bytes × V))) where
  -- With an odd number of arguments, as one map alone, no name has a value.
  pub itf-new_params_odd :
      (xs : List V) (key : Bytes)
      → (length xs % 2 == 0) ≡ false
      → itf lower (new_params lower is_nil as_string as_map xs) key ≡ none
  unfolding new_params itf at_key
  itf-new_params_odd [] key h = refl
  itf-new_params_odd (x ∷ xs) key h = rw h refl
