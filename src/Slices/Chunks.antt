-- ===== src/Slices/Chunks.antt =====
-- utils/slice.go: the chunks that `SliceChunk` makes, and what it leaves out.
use wgo.Common.{
  ℕ, zero, suc, ◌+◌, ◌-◌, ◌≡◌, ◌≤◌, ◌<◌, refl, sym, ap, ◌∙◌, some, List, [], ◌∷◌, ◌++◌, arith, All,
  length, take, drop,
}
use native.Mathlib.Decide.{dec_lt}
use wgo.Slices.{chunk_from, slice_chunk}

module _ {A : Type 0} where
  abbrev pub concat : List (List A) → List A
  concat [] = []
  concat (x ∷ xs) = x ++ concat xs

  append_assoc : (a b c : List A) → (a ++ b) ++ c ≡ a ++ (b ++ c)
  append_assoc [] b c = refl
  append_assoc (x ∷ a) b c = ap (λ z. x ∷ z) (append_assoc a b c)

  take-drop : (n : ℕ) (s : List A) → take n s ++ drop n s ≡ s
  take-drop zero s = refl
  take-drop (suc n) [] = refl
  take-drop (suc n) (x ∷ s) = ap (λ z. x ∷ z) (take-drop n s)

  length-drop : (n : ℕ) (s : List A) → length (drop n s) ≡ length s - n
  length-drop zero s = omega arith
  length-drop (suc n) [] = omega arith
  length-drop (suc n) (x ∷ s) = omega (arith, length-drop n s)

  length-take : (n : ℕ) (s : List A) → n ≤ length s → length (take n s) ≡ n
  length-take zero s h = refl
  length-take (suc n) [] h = absurd (omega arith)
  length-take (suc n) (x ∷ s) h = ap suc (length-take n s (omega arith))

  drop_empty : (k : ℕ) (s : List A) → length s ≡ 0 → drop k s ≡ s
  drop_empty zero s h = refl
  drop_empty (suc k) [] h = refl
  drop_empty (suc k) (x ∷ s) h = absurd (omega arith)

  drop_add : (i k m : ℕ) (s : List A) → m ≡ i + k → drop m s ≡ drop k (drop i s)
  drop_add zero k m s e = let same : m ≡ k = omega arith in ap (λ x. drop x s) same
  drop_add (suc i) k zero s e = absurd (omega arith)
  drop_add (suc i) k (suc m) [] e = sym (drop_empty k [] refl)
  drop_add (suc i) k (suc m) (x ∷ s) e = drop_add i k m s (omega arith)

  chunk_from-stop :
      (fuel i : ℕ) (s : List A) (size : ℕ)
      → length s - size < i
      → chunk_from (suc fuel) i s size ≡ some []
  unfolding chunk_from
  chunk_from-stop fuel i s size h = ground arith

  chunk_from-go :
      (fuel i : ℕ) (s : List A) (size : ℕ) (cs : List (List A))
      → i ≤ length s - size
      → chunk_from fuel (i + size) s size ≡ some cs
      → chunk_from (suc fuel) i s size ≡ some (take size (drop i s) ∷ cs)
  unfolding chunk_from
  chunk_from-go fuel i s size cs h e = ground (arith, e)

  -- The chunks from the index `i` on, and what is left behind them.
  abbrev Chunked : ℕ → ℕ → List A → ℕ → Type 0
  Chunked fuel i s size =
      (cs : List (List A)) × (rest : List A) × (chunk_from fuel i s size ≡ some cs)
      × (concat cs ++ rest ≡ drop i s)
      × (length rest < size)
      × All (λ c. length c ≡ size) cs

  chunk_from-Chunked :
      (fuel i : ℕ) (s : List A) (size : ℕ)
      → 1 ≤ size
      → size ≤ length s
      → i ≤ length s
      → length s < i + fuel
      → Chunked fuel i s size
  chunk_from-Chunked zero i s size h1 h2 h3 room = absurd (omega arith)
  chunk_from-Chunked (suc fuel) i s size h1 h2 h3 room = elim (dec_lt (length s - size) i) [
    | yes over ↦
        ([], drop i s, chunk_from-stop fuel i s size over, refl, omega (arith, length-drop i s), tt)
    | no inside ↦
        let (cs, rest, e, joined, short, sized) =
          chunk_from-Chunked fuel (i + size) s size h1 h2 (omega arith) (omega arith) in
        (
          take size (drop i s) ∷ cs,
          rest,
          chunk_from-go fuel i s size cs (omega arith) e,
          append_assoc (take size (drop i s)) (concat cs) rest
              ∙ ap (λ z. take size (drop i s) ++ z) (joined ∙ drop_add i size (i + size) s refl)
              ∙ take-drop size (drop i s),
          short,
          (length-take size (drop i s) (omega (arith, length-drop i s)), sized),
        )
  ]

  -- `SliceChunk` with a size of at least one and below the slice's length ends: its chunks all have
  -- that size and are, joined, the slice but for fewer than `size` values at its end, which are lost.
  pub slice_chunk-concat :
      (fuel : ℕ) (s : List A) (size : ℕ)
      → 1 ≤ size
      → size < length s
      → length s < fuel
      → (cs : List (List A)) × (rest : List A) × (slice_chunk fuel s size ≡ some cs)
        × (concat cs ++ rest ≡ s)
        × (length rest < size)
        × All (λ c. length c ≡ size) cs
  unfolding slice_chunk
  slice_chunk-concat fuel s size h1 h2 room =
      let (cs, rest, e, joined, short, sized) =
        chunk_from-Chunked fuel 0 s size h1 (omega arith) (omega arith) (omega arith) in
      (cs, rest, ground (arith, e), joined, short, sized)
