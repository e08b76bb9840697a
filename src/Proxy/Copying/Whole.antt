-- ===== src/Proxy/Copying/Whole.antt =====
-- copyBuffer and netHTTPBody in whttp/proxy.go: what has been copied when it ends.
use mathlib.Core.List.{append_assoc}
use wgo.Common.{
  ℕ, zero, suc, ◌+◌, ◌%◌, ◌^◌, ◌<◌, ◌≡◌, refl, sym, ap, ◌∙◌, Option, none, some, [], ◌∷◌, ◌++◌,
  Bytes, ==_refl, length, take, drop, arith, append_nil,
}
use wgo.Proxy.Copying.{
  end_round, check_part, CopyError, body_read, buffer_size, write_part, copy_from, copy_buffer,
}

take-drop : (n : ℕ) (l : Bytes) → take n l ++ drop n l ≡ l
take-drop zero l = refl
take-drop (suc n) [] = refl
take-drop (suc n) (x ∷ l) = ap (λ (t : Bytes). x ∷ t) (take-drop n l)

length-drop : (n : ℕ) (l : Bytes) → length (drop n l) + length (take n l) ≡ length l
length-drop zero l = omega arith
length-drop (suc n) [] = refl
length-drop (suc n) (x ∷ l) = omega (arith, length-drop n l)

module _ {E W : Type 0} (write : Bytes → W → ℕ × Option E × W) (view : W → Bytes) where
  -- A writer that takes all it is given, and shows it behind what it took before.
  pub record TakesAll : Type 0 where
    pub counts : (bs : Bytes) (w : W) → (write bs w).0 ≡ length bs
    pub no_error : (bs : Bytes) (w : W) → (write bs w).1 ≡ none
    pub shows : (bs : Bytes) (w : W) → view (write bs w).2 ≡ view w ++ bs

  write-pair : TakesAll → (bs : Bytes) (w : W) → write bs w ≡ (length bs, none, (write bs w).2)
  write-pair t bs w = λ i. (t.counts bs w i, t.no_error bs w i, (write bs w).2)

  write_part-TakesAll :
      (written : ℕ) (b : ℕ) (bs : Bytes) (w : W)
      → TakesAll
      → write_part write written (b ∷ bs) w
        ≡ ((written + length (b ∷ bs)) % 2 ^ 64, none, (write (b ∷ bs) w).2)
  unfolding write_part check_part
  write_part-TakesAll written b bs w t =
      ap (check_part written (length (b ∷ bs))) (write-pair t (b ∷ bs) w)
      ∙ ground (arith, ==_refl (length (b ∷ bs)))

  copy_from-step :
      (fuel m written : ℕ) (b : ℕ) (bs : Bytes) (w : W)
      → TakesAll
      → copy_from (body_read {E = E}) write (suc fuel) (suc m) written (b ∷ bs) w
        ≡ copy_from
            (body_read {E = E})
            write
            fuel
            (suc m)
            ((written + length (b ∷ take m bs)) % 2 ^ 64)
            (drop m bs)
            (write (b ∷ take m bs) w).2
  unfolding copy_from body_read end_round
  copy_from-step fuel m written b bs w t =
      ap
        (λ (p : ℕ × Option (CopyError E) × W).
          end_round p none (drop m bs) (copy_from body_read write fuel (suc m) p.0 (drop m bs) p.2))
        (write_part-TakesAll written b (take m bs) w t)

  -- A copy that ends without an error, having taken the whole body.
  abbrev pub Copied : Option (ℕ × Option (CopyError E) × Bytes × W) → ℕ → W → Bytes → Type 0
  Copied result written w b =
      (w' : W) × (result ≡ some ((written + length b) % 2 ^ 64, none, [], w'))
      × (view w' ≡ view w ++ b)

  copy_from-Copied :
      (fuel m written : ℕ) (b : Bytes) (w : W)
      → TakesAll
      → length b < fuel
      → written < 2 ^ 64
      → Copied (copy_from body_read write fuel (suc m) written b w) written w b
  unfolding copy_from body_read write_part end_round
  copy_from-Copied zero m written b w t lt small = absurd (omega arith)
  copy_from-Copied (suc fuel) m written [] w t lt small =
      (w, ap (λ (n : ℕ). some (n, none, [], w)) (omega (arith, small)), sym (append_nil (view w)))
  copy_from-Copied (suc fuel) m written (b ∷ bs) w t lt small =
      let ih =
        copy_from-Copied fuel m ((written + length (b ∷ take m bs)) % 2 ^ 64) (drop m bs)
          (write (b ∷ take m bs) w).2 t (omega (arith, lt, length-drop m bs)) (omega arith) in
      (
        ih.0,
        copy_from-step fuel m written b bs w t
            ∙ ih.1
            ∙ ap (λ (n : ℕ). some (n, none, [], ih.0)) (omega (arith, length-drop m bs)),
        ih.2
            ∙ ap (λ (x : Bytes). x ++ drop m bs) (t.shows (b ∷ take m bs) w)
            ∙ append_assoc (view w) (b ∷ take m bs) (drop m bs)
            ∙ ap (λ (x : Bytes). view w ++ b ∷ x) (take-drop m bs),
      )

  -- Copying a body to a writer that takes all it is given, with a buffer of any size, an empty one
  -- included: with fuel for one round more than the body has bytes the copy ends without an
  -- error, counts the body's length modulo 2 ^ 64, leaves none of the body, and the writer has the
  -- body behind what it had.
  pub copy_buffer-Copied :
      (fuel n : ℕ) (b : Bytes) (w : W)
      → TakesAll
      → length b < fuel
      → Copied (copy_buffer body_read write fuel n b w) 0 w b
  unfolding copy_buffer
  copy_buffer-Copied fuel zero b w t lt = copy_from-Copied fuel 32767 0 b w t lt (omega arith)
  copy_buffer-Copied fuel (suc k) b w t lt =
      let size : buffer_size (suc k) ≡ suc k = ground arith in
      rw size (copy_from-Copied fuel k 0 b w t lt (omega arith))
