-- ===== src/Slices/Tests.antt =====
-- utils/slice.go: runs, and the theorems at concrete slices.
use wgo.Common.{ℕ, ◌≡◌, refl, Bool, some, List, [], ◌∷◌, ◌==◌}
use wgo.Slices.{chunk_from, slice_chunk}

abbrev same : ℕ → ℕ → Bool
same a b = a == b

abbrev few : List ℕ
few = 1 ∷ 2 ∷ 1 ∷ 3 ∷ 2 ∷ []

-- The fifth value is in no chunk.
chunk_few : slice_chunk 9 few 2 ≡ some ((1 ∷ 2 ∷ []) ∷ (1 ∷ 3 ∷ []) ∷ [])
unfolding slice_chunk chunk_from
chunk_few = refl
