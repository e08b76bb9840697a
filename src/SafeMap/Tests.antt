-- ===== src/SafeMap/Tests.antt =====
-- utils/safemap.go: a run and a theorem at a concrete map.
use wgo.Common.{ℕ, ◌≡◌, refl, Bool, List, [], ◌∷◌, ◌==◌}
use wgo.SafeMap.{entry, store, map_set, set_all, clone}

abbrev same : ℕ → ℕ → Bool
same a b = a == b

abbrev two : List (ℕ × ℕ)
two = (1, 10) ∷ (2, 20) ∷ []

clone-two : clone same same two ≡ two
unfolding clone set_all map_set store entry
clone-two = refl
