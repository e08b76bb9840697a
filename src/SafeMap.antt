-- ===== src/SafeMap.antt =====
-- utils/safemap.go: the map behind a lock. Each operation holds the lock from its first line to its
-- last, so it is one step. Go's map is the list of its entries; `same` is `==` on keys, `same_value`
-- on values, and `nil` the value for a missing key.
pub mod Laws
mod Tests
use wgo.Common.{Bool, true, false, Option, none, some, List, [], ◌∷◌, if◌then◌else◌}

module _ {K V : Type 0} (same : K → K → Bool) (same_value : V → V → Bool) where
  -- `m.bm[k]`
  unfoldable pub entry : List (K × V) → K → Option V
  entry [] k = none
  entry ((k', v) ∷ m) k = if same k' k then some v else entry m k

  -- `m.bm[k] = v`
  unfoldable pub store : List (K × V) → K → V → List (K × V)
  store [] k v = (k, v) ∷ []
  store ((k', v') ∷ m) k v = if same k' k then (k', v) ∷ m else (k', v') ∷ store m k v

  unfoldable pub map_get : V → List (K × V) → K → V
  map_get nil m k = elim (entry m k) [ none ↦ nil | some v ↦ v ]

  -- The map after `Set`, and what it returns.
  unfoldable pub map_set : List (K × V) → K → V → List (K × V) × Bool
  map_set m k v = elim (entry m k) [
    | none ↦ (store m k v, true)
    | some val ↦ if same_value val v then (m, false) else (store m k v, true)
  ]

  unfoldable pub map_check : List (K × V) → K → Bool
  map_check m k = elim (entry m k) [ none ↦ false | some v ↦ true ]

  unfoldable pub remove : List (K × V) → K → List (K × V)
  remove [] k = []
  remove ((k', v) ∷ m) k = if same k' k then remove m k else (k', v) ∷ remove m k

  -- `for k, v := range items { nm.Set(k, v) }`
  unfoldable pub set_all : List (K × V) → List (K × V) → List (K × V)
  set_all [] nm = nm
  set_all ((k, v) ∷ items) nm = set_all items (map_set nm k v).0

  unfoldable pub clone : List (K × V) → List (K × V)
  clone m = set_all m []
