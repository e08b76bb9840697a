-- ===== src/Cache/Direct.antt =====
-- cache/bucket.go: what a bucket really stores. A slot keeps one entry, in its last place, so a
-- bucket is an array of sixteen cells addressed by the slot number of the hash.
use wgo.Common.{
  ℕ, ◌+◌, ◌-◌, ◌*◌, ◌/◌, ◌%◌, ◌≡◌, ◌≢◌, refl, sym, ap, ◌∙◌, ◌≤◌, ◌<◌, [], ◌∷◌, inl, inr, ◌==◌,
  replicate, arith, Bool-cases, length, length-replicate, length-set, get_or, set, get_or-set_self,
  get_or-set_ne, get_or-replicate, if◌then◌else◌, window, window-set_self, window-set_below,
  window-set_above, window-replicate, get_or-window, get_or-replicate_append,
}
use native.Mathlib.Decide.{dec_lt}
use wgo.Common.{
  eq_of_==, ne_of_==, window-replicate, get_or-window, get_or-replicate_append, ◌-◌, sym,
}
use wgo.Cache.Bucket.{Entry, Bucket, zero_entry, new_bucket, slot_at}
use wgo.Cache.Slot.{last_only}

place_ne : (s t : ℕ) → s ≢ t → s * 8 + 7 ≢ t * 8 + 7
place_ne s t h = omega arith

module _ {V : Type 0} where
  -- The one entry of slot `s`.
  abbrev pub cell : Bucket V → ℕ → Entry V
  cell b s = get_or b.slots (s * 8 + 7) zero_entry

  pub record IsDirect (b : Bucket V) : Type 0 where
    pub sized : length b.slots ≡ 256
    pub direct : (s : ℕ) → s < 16 → slot_at b (s * 8) ≡ last_only (cell b s)
    pub unused : window 128 128 b.slots ≡ replicate 128 zero_entry

  abbrev pub write : Bucket V → ℕ → Entry V → Bucket V
  write b s e = record b { slots = set b.slots (s * 8 + 7) e }

  pub cell-write :
      (b : Bucket V) (s t : ℕ) (e : Entry V)
      → IsDirect b
      → s < 16
      → cell (write b s e) t ≡ (if s == t then e else cell b t)
  cell-write b s t e d h = elim (Bool-cases (s == t)) [
    | inl same ↦ rw same (
        rw (← eq_of_== s t same)
          (get_or-set_self b.slots (s * 8 + 7) e zero_entry (omega (arith, d.sized))))
    | inr other ↦ rw other (
        get_or-set_ne b.slots (s * 8 + 7) (t * 8 + 7) e zero_entry
          (place_ne s t (ne_of_== s t other)))
  ]

  slot_at-write_ne :
      (b : Bucket V) (s t : ℕ) (e : Entry V)
      → s ≢ t
      → slot_at (write b s e) (t * 8) ≡ slot_at b (t * 8)
  slot_at-write_ne b s t e h = elim (dec_lt s t) [
    | yes below ↦ window-set_below 8 (t * 8) (s * 8 + 7) b.slots e (omega arith)
    | no above ↦ window-set_above 8 (t * 8) (s * 8 + 7) b.slots e (omega arith)
  ]

  slot_at-write_self :
      (b : Bucket V) (s : ℕ) (e : Entry V)
      → slot_at (write b s e) (s * 8) ≡ set (slot_at b (s * 8)) 7 e
  slot_at-write_self b s e = window-set_self 8 (s * 8) 7 (s * 8 + 7) b.slots e refl (omega arith)

  write-direct :
      (b : Bucket V) (s t : ℕ) (e : Entry V)
      → IsDirect b
      → s < 16
      → t < 16
      → slot_at (write b s e) (t * 8) ≡ last_only (cell (write b s e) t)
  write-direct b s t e d h k = rw (cell-write b s t e d h) (elim (Bool-cases (s == t)) [
    | inl same ↦
        rw same
          (rw (← eq_of_== s t same) (slot_at-write_self b s e ∙ ap (λ l. set l 7 e) (d.direct s h)))
    | inr other ↦ rw other (slot_at-write_ne b s t e (ne_of_== s t other) ∙ d.direct t k)
  ])

  pub write-IsDirect :
      (b : Bucket V) (s : ℕ) (e : Entry V) → IsDirect b → s < 16 → IsDirect (write b s e)
  write-IsDirect b s e d h = record {
    sized = length-set b.slots (s * 8 + 7) e ∙ d.sized;
    direct = λ t k. write-direct b s t e d h k;
    unused = window-set_below 128 128 (s * 8 + 7) b.slots e (omega arith) ∙ d.unused;
  }

  pub new_bucket-IsDirect : (id : ℕ) → IsDirect (new_bucket {V = V} id)
  unfolding new_bucket
  new_bucket-IsDirect id = record {
    sized = length-replicate 256 (zero_entry {V = V});
    direct = λ s h.
        rw (get_or-replicate 256 (s * 8 + 7) (zero_entry {V = V}))
          (window-replicate 8 (s * 8) 256 zero_entry (omega arith));
    unused = window-replicate 128 128 256 (zero_entry {V = V}) (omega arith);
  }

  last_only-get_or : (e : Entry V) (i : ℕ) → i < 7 → get_or (last_only e) i zero_entry ≡ zero_entry
  last_only-get_or e i h = get_or-replicate_append 7 i zero_entry (e ∷ []) h

  -- Every other place of a bucket is empty.
  pub IsDirect-idle :
      (b : Bucket V) (i : ℕ)
      → IsDirect b
      → i % 8 ≢ 7
      → i < 128
      → get_or b.slots i zero_entry ≡ zero_entry
  IsDirect-idle b i d h k =
      sym (get_or-window 8 (i / 8 * 8) (i % 8) i b.slots zero_entry (omega arith) (omega arith))
      ∙ (rw (d.direct (i / 8) (omega arith)) (last_only-get_or _ (i % 8) (omega arith)))

  pub IsDirect-unused :
      (b : Bucket V) (i : ℕ)
      → IsDirect b
      → 128 ≤ i
      → i < 256
      → get_or b.slots i zero_entry ≡ zero_entry
  IsDirect-unused b i d h k =
      sym (get_or-window 128 128 (i - 128) i b.slots zero_entry (omega arith) (omega arith))
      ∙ (rw d.unused (get_or-replicate 128 (i - 128) zero_entry))
