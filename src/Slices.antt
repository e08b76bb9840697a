-- ===== src/Slices.antt =====
-- utils/slice.go: the functions on slices that neither draw random numbers nor use reflection. The
-- source has one copy for each element type; `same` is that type's `==`.
pub mod Members
pub mod Sizes
pub mod Chunks
mod Tests
use wgo.Common.{
  ℕ, zero, suc, ◌+◌, ◌-◌, Bool, true, false, not, Option, none, some, List, [], ◌∷◌, ◌++◌, ltb, leb,
  if◌then◌else◌, length, take, drop,
}

module _ {A : Type 0} (same : A → A → Bool) where
  unfoldable pub in_slice : A → List A → Bool
  in_slice v [] = false
  in_slice v (vv ∷ sl) = if same vv v then true else in_slice v sl

  -- `nsl` is what has been kept.
  unfoldable pub purge_from : A → List A → List A → List A
  purge_from v [] nsl = nsl
  purge_from v (vv ∷ sl) nsl =
      if not (same vv v) then purge_from v sl (nsl ++ vv ∷ []) else purge_from v sl nsl

  unfoldable pub purge_slice : A → List A → List A
  purge_slice v sl = purge_from v sl []

  unfoldable pub slice_diff : List A → List A → List A
  slice_diff [] slice2 = []
  slice_diff (v ∷ slice1) slice2 =
      if not (in_slice v slice2) then v ∷ slice_diff slice1 slice2 else slice_diff slice1 slice2

  unfoldable pub slice_intersect : List A → List A → List A
  slice_intersect [] slice2 = []
  slice_intersect (v ∷ slice1) slice2 =
      if not (in_slice v slice2)
      then v ∷ slice_intersect slice1 slice2
      else slice_intersect slice1 slice2

  unfoldable pub unique_from : List A → List A → List A
  unique_from [] uniqueslice = uniqueslice
  unique_from (v ∷ slice) uniqueslice =
      if not (in_slice v uniqueslice)
      then unique_from slice (uniqueslice ++ v ∷ [])
      else unique_from slice uniqueslice

  unfoldable pub slice_unique : List A → List A
  slice_unique slice = unique_from slice []

module _ {A : Type 0} where
  unfoldable pub slice_merge : List A → List A → List A
  slice_merge slice1 slice2 = slice1 ++ slice2

  unfoldable pub slice_reduce : List A → (A → A) → List A
  slice_reduce [] a = []
  slice_reduce (v ∷ slice) a = a v ∷ slice_reduce slice a

  unfoldable pub slice_filter : List A → (A → Bool) → List A
  slice_filter [] a = []
  slice_filter (v ∷ slice) a = if a v then v ∷ slice_filter slice a else slice_filter slice a

  -- The loop `for i := 0; i <= (len(slice) - size); i += size`; `end` is `i + size`. `none` means
  -- that the fuel ran out.
  unfoldable pub chunk_from : ℕ → ℕ → List A → ℕ → Option (List (List A))
  chunk_from zero i slice size = none
  chunk_from (suc fuel) i slice size = elim (leb i (length slice - size)) [
    | false ↦ some []
    | true ↦ elim (chunk_from fuel (i + size) slice size) [
      | none ↦ none
      | some rest ↦ some (take size (drop i slice) ∷ rest)
    ]
  ]

  unfoldable pub slice_chunk : ℕ → List A → ℕ → Option (List (List A))
  slice_chunk fuel slice size =
      if leb (length slice) size then some (slice ∷ []) else chunk_from fuel 0 slice size

  -- The loop `for i := 0; i < (size - len(slice)); i++`, in which the slice grows.
  unfoldable pub pad_from : ℕ → ℕ → List A → ℕ → A → Option (List A)
  pad_from zero i slice size val = none
  pad_from (suc fuel) i slice size val = elim (ltb i (size - length slice)) [
    | true ↦ pad_from fuel (i + 1) (slice ++ val ∷ []) size val
    | false ↦ some slice
  ]

  unfoldable pub slice_pad : ℕ → List A → ℕ → A → Option (List A)
  slice_pad fuel slice size val =
      if leb size (length slice) then some slice else pad_from fuel 0 slice size val
