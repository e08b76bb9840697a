-- ===== src/Slices/Sizes.antt =====
-- utils/slice.go: how long the results of `SliceChunk` and `SlicePad` are.
use wgo.Common.{
  replicate, ℕ, zero, suc, ◌+◌, ◌*◌, ◌≡◌, ◌≤◌, ◌<◌, refl, sym, ap, ◌∙◌, some, List, [], ◌∷◌, ◌++◌,
  arith, length, append_step, append_nil,
}
use wgo.Slices.{pad_from, slice_pad}

module _ {A : Type 0} where
  length-snoc : (a : List A) (x : A) → length (a ++ x ∷ []) ≡ suc (length a)
  length-snoc [] x = refl
  length-snoc (y ∷ a) x = ap suc (length-snoc a x)

  pad_from-stop :
      (fuel i : ℕ) (s : List A) (size : ℕ) (v : A)
      → size ≤ i + length s
      → pad_from (suc fuel) i s size v ≡ some s
  unfolding pad_from
  pad_from-stop fuel i s size v h = ground arith

  pad_from-go :
      (fuel i : ℕ) (s : List A) (size : ℕ) (v : A)
      → i + length s < size
      → pad_from (suc fuel) i s size v ≡ pad_from fuel (i + 1) (s ++ v ∷ []) size v
  unfolding pad_from
  pad_from-go fuel i s size v h = ground arith

  -- The loop appends until what it has appended and what is missing meet.
  pad_from-repeat :
      (n fuel i : ℕ) (s : List A) (size : ℕ) (v : A)
      → size ≤ i + length s + 2 * n
      → i + length s + 2 * n ≤ size + 1
      → n < fuel
      → pad_from fuel i s size v ≡ some (s ++ replicate n v)
  pad_from-repeat n zero i s size v lo hi room = absurd (omega arith)
  pad_from-repeat zero (suc fuel) i s size v lo hi room =
      pad_from-stop fuel i s size v (omega arith) ∙ ap some (sym (append_nil s))
  pad_from-repeat (suc n) (suc fuel) i s size v lo hi room =
      pad_from-go fuel i s size v (omega arith)
      ∙ pad_from-repeat n fuel (i + 1) (s ++ v ∷ []) size v (omega (arith, length-snoc s v))
          (omega (arith, length-snoc s v)) (omega arith)
      ∙ ap some (append_step s v (replicate n v))

  -- `SlicePad` ends and appends half of the values that are missing, rounded up.
  pub slice_pad-half :
      (n fuel : ℕ) (s : List A) (size : ℕ) (v : A)
      → size ≤ length s + 2 * n
      → length s + 2 * n ≤ size + 1
      → length s < size
      → n < fuel
      → slice_pad fuel s size v ≡ some (s ++ replicate n v)
  unfolding slice_pad
  slice_pad-half n fuel s size v lo hi short room =
      ground (arith, pad_from-repeat n fuel 0 s size v (omega arith) (omega arith) room)
