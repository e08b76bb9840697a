-- ===== src/Params.antt =====
-- utils/params.go: optional arguments, by place and by name. A value is of any type, given what
-- reflection and the type assertions tell of it: whether it is a nil pointer, slice, map or the
-- like, and whether it is a string or a map with string keys. `nothing` is the nil interface, and
-- `lower` is strings.ToLower.
pub mod Names
mod Tests
use wgo.Common.{
  ℕ, zero, suc, ◌+◌, ◌-◌, ◌%◌, Bool, true, false, ◌&&◌, Option, none, some, List, [], ◌∷◌, ◌++◌,
  Bytes, bytes, ◌==◌, ltb, leb, if◌then◌else◌, length, get_or, drop, at_key,
}

pub record Params (V : Type 0) : Type 0 where
  pub origin : List V
  pub params : List (Bytes × V)

module _ {V : Type 0} (is_nil : V → Bool) where
  -- The switch on the kind of a value, for a name that is already in lower case.
  unfoldable pub set_param : Bytes → V → List (Bytes × V) → List (Bytes × V)
  set_param name v params = if is_nil v then params else (name, v) ∷ params

module _ {V : Type 0} (lower : Bytes → Bytes) (is_nil : V → Bool) where
  -- `for k, v := range pv`, in the order in which the range comes.
  unfoldable pub parse_map : List (Bytes × V) → List (Bytes × V) → List (Bytes × V)
  parse_map [] params = params
  parse_map ((k, v) ∷ pv) params = parse_map pv (set_param is_nil (lower k) v params)

  -- The first argument, where it is a map.
  unfoldable pub parse_first : (V → Option (List (Bytes × V))) → V → List (Bytes × V)
  parse_first as_map primary = elim (as_map primary) [ none ↦ [] | some pv ↦ parse_map pv [] ]

module _ {V : Type 0} (lower : Bytes → Bytes) (is_nil : V → Bool)
    (as_string : V → Option Bytes) where
  -- One round of the loop over the pairs.
  unfoldable pub parse_pair : V → V → List (Bytes × V) → List (Bytes × V)
  parse_pair n v params = elim (as_string n) [
    | none ↦ params
    | some name ↦ elim name [ [] ↦ params | c ∷ cs ↦ set_param is_nil (lower (c ∷ cs)) v params ]
  ]

  -- `for i := 0; i < len(p.origin); i += 2`
  unfoldable pub parse_pairs : List V → List (Bytes × V) → List (Bytes × V)
  parse_pairs [] params = params
  parse_pairs (n ∷ []) params = params
  parse_pairs (n ∷ v ∷ rest) params = parse_pairs rest (parse_pair n v params)

module _ {V : Type 0} (lower : Bytes → Bytes) (is_nil : V → Bool) (as_string : V → Option Bytes)
    (as_map : V → Option (List (Bytes × V))) where
  -- `NewParams` with `Parse`
  unfoldable pub new_params : List V → Params V
  new_params [] = record { origin = []; params = [] }
  new_params (primary ∷ rest) = record {
    origin = primary ∷ rest;
    params =
        if length (primary ∷ rest) % 2 == 0
        then parse_pairs lower is_nil as_string (primary ∷ rest)
            (parse_first lower is_nil as_map primary)
        else [];
  }

  -- `Shift`
  unfoldable pub shift : Params V → Params V
  shift p = elim p.origin [ [] ↦ p | primary ∷ rest ↦ new_params rest ]

module _ {V : Type 0} where
  -- `Itf`
  unfoldable pub itf : (Bytes → Bytes) → Params V → Bytes → Option V
  itf lower p key = at_key p.params (lower key)

  -- `ItfByIndex`, for an offset that is not negative.
  unfoldable pub itf_by_index : V → Params V → ℕ → V
  itf_by_index nothing p offset =
      if ltb offset (length p.origin) then get_or p.origin offset nothing else nothing

  unfoldable pub primary_interface : V → Params V → V
  primary_interface nothing p = if length p.origin == 1 then itf_by_index nothing p 0 else nothing

  unfoldable pub last_interface : V → Params V → V
  last_interface nothing p =
      if ltb 1 (length p.origin) then itf_by_index nothing p (length p.origin - 1) else nothing

  -- `Remains`
  unfoldable pub remains : Params V → ℕ → List V
  remains p off = if leb (length p.origin) (off + 1) then [] else drop (off + 1) p.origin

  -- The loop of `Destructuring`: whether a key matched, and the map.
  unfoldable pub destructure :
      (Bytes → Bytes) → Params V → List (Bytes × V) → Bool × List (Bytes × V)
  destructure lower p [] = (false, [])
  destructure lower p ((k, old) ∷ mp) =
      let (matched, rest) = destructure lower p mp in
      elim (at_key p.params (lower k)) [
        | none ↦ (matched, (k, old) ∷ rest)
        | some v ↦ (true, (k, v) ∷ rest)
      ]
