-- ===== src/Words/Forms.antt =====
-- utils/words.go: which words count as plurals, and what `Pluralize` does with them.
use wgo.Common.{
  ℕ, ◌-◌, ◌≡◌, ◌≢◌, ◌≤◌, refl, ap, ◌∙◌, Bool, true, false, not, ◌||◌, Option, none, some, [], ◌∷◌,
  Bytes, bytes, bytes_eq, bytes_eq_iff, ◌==◌, length, drop, arith,
}
use wgo.Router.Prefix.{drop-ne-nil}
use wgo.Words.{
  lookup, tail, tail_is, byte_at, exceptions, already_pluralized, root_and_suffix, plural_of_s,
  plural_of_other, unless_pluralized, pluralize_ending, pluralize,
}
use wgo.Words.Dictionary.{plural_dictionary, singular_dictionary}

-- The last byte of a word, 0 for an empty one.
abbrev pub last_byte : Bytes → ℕ
last_byte [] = 0
last_byte (b ∷ []) = b
last_byte (b ∷ c ∷ bs) = last_byte (c ∷ bs)

drop_last : (b : ℕ) (bs : Bytes) → drop (length bs) (b ∷ bs) ≡ last_byte (b ∷ bs) ∷ []
drop_last b [] = refl
drop_last b (c ∷ bs) = drop_last c bs

tail_one : (w : Bytes) → 1 ≤ length w → tail 1 w ≡ some (last_byte w ∷ [])
unfolding tail
tail_one [] h = absurd (omega arith)
tail_one (b ∷ bs) h = ground (arith, drop_last b bs)

tail_is-some :
    {A : Type 0} (n : ℕ) (w t : Bytes) (k : Bool → Option A)
    → n ≤ length w
    → tail_is n w t k ≡ k (bytes_eq (drop (length w - n) w) t)
unfolding tail_is tail
tail_is-some n w t k h = ground arith

byte_at-last :
    {A : Type 0} (w : Bytes) (k : ℕ → Option A) → 1 ≤ length w → byte_at 1 w k ≡ k (last_byte w)
unfolding byte_at
byte_at-last w k h = ground (arith, tail_one w h)

-- A word does not end in both "e" and "y".
not_both :
    (b : ℕ) → (not (bytes_eq (b ∷ []) (bytes "e")) || not (bytes_eq (b ∷ []) (bytes "y"))) ≡ true
unfolding bytes_eq
not_both b = ground arith

exceptions-false : (w : Bytes) → 1 ≤ length w → exceptions w ≡ some false
unfolding exceptions tail_is
exceptions-false w h = ground (arith, tail_one w h, not_both (last_byte w))

-- A word of at least two bytes counts as a plural exactly when it is in the dictionary of plurals or
-- ends in "s": the other exceptions are never reached.
pub already_pluralized-last :
    (w : Bytes)
    → 2 ≤ length w
    → already_pluralized w
      ≡ some (not (bytes_eq (lookup singular_dictionary w) []) || last_byte w == b's')
unfolding already_pluralized byte_at
already_pluralized-last w h =
    ground (arith, tail_one w (omega arith), exceptions-false w (omega arith))

-- The ending of a word, its last `n` bytes.
abbrev pub ends_in : ℕ → Bytes → Bytes → Bool
ends_in n w t = bytes_eq (drop (length w - n) w) t

head_of : (e : Bytes) → e ≢ [] → (b : ℕ) × (bs : Bytes) × (e ≡ b ∷ bs)
head_of [] h = absurd (h refl)
head_of (b ∷ bs) h = (b, bs, refl)

tail-some : (n : ℕ) (w : Bytes) → n ≤ length w → tail n w ≡ some (drop (length w - n) w)
unfolding tail
tail-some n w h = ground arith

tail-cons :
    (n : ℕ) (w : Bytes) → 1 ≤ n → n ≤ length w → (b : ℕ) × (bs : Bytes) × (tail n w ≡ some (b ∷ bs))
tail-cons n w h1 h =
    let (b, bs, e) = head_of (drop (length w - n) w) (drop-ne-nil (length w - n) w (omega arith)) in
    (b, bs, tail-some n w h ∙ ap some e)

plural_of_s-some : (w : Bytes) → 3 ≤ length w → plural_of_s w ≢ none
unfolding plural_of_s byte_at tail_is
plural_of_s-some w h =
    let (b, bs, e) = tail-cons 2 w (omega arith) (omega arith) in ground (arith, e, tail-some 3 w h)

plural_of_other-some : (w : Bytes) → 3 ≤ length w → plural_of_other w ≢ none
unfolding plural_of_other tail_is
plural_of_other-some w h = ground (arith, tail-some 2 w (omega arith))

root_and_suffix-some : (w : Bytes) → 3 ≤ length w → root_and_suffix w ≢ none
unfolding root_and_suffix byte_at
root_and_suffix-some w h =
    let (b, bs, e) = tail-cons 2 w (omega arith) (omega arith) in
    ground (arith, e, tail_one w (omega arith), plural_of_s-some w h, plural_of_other-some w h)

-- After the fixed endings comes the sanity check.
pluralize_ending-some : (w : Bytes) → 3 ≤ length w → pluralize_ending w ≢ none
unfolding pluralize_ending tail_is unless_pluralized
pluralize_ending-some w h = ground (
  arith,
  tail-some 1 w (omega arith),
  tail-some 2 w (omega arith),
  root_and_suffix-some w h,
  already_pluralized-last w (omega arith),
)

-- `Pluralize` does not panic on a word of at least three bytes.
pub pluralize-some : (w : Bytes) → 3 ≤ length w → pluralize w ≢ none
unfolding pluralize tail_is
pluralize-some [] h = absurd (omega arith)
pluralize-some (b ∷ bs) h = ground (arith, tail-some 3 (b ∷ bs) h, pluralize_ending-some (b ∷ bs) h)

-- The word ends in "s" and no fixed rule is about it.
abbrev IsPlainS : Bytes → Type 0
IsPlainS w =
    (3 ≤ length w)
    × (last_byte w ≡ b's')
    × (lookup plural_dictionary w ≡ [])
    × (ends_in 3 w (bytes "sis") ≡ false)
    × (ends_in 2 w (bytes "us") ≡ false)

drop_two :
    (b c : ℕ) (bs : Bytes) → (x : ℕ) × (drop (length bs) (b ∷ c ∷ bs) ≡ x ∷ last_byte (c ∷ bs) ∷ [])
drop_two b c [] = (b, refl)
drop_two b c (d ∷ bs) = drop_two c d bs

tail_two : (w : Bytes) → 2 ≤ length w → (x : ℕ) × (tail 2 w ≡ some (x ∷ last_byte w ∷ []))
unfolding tail
tail_two [] h = absurd (omega arith)
tail_two (b ∷ []) h = absurd (omega arith)
tail_two (b ∷ c ∷ bs) h = let (x, e) = drop_two b c bs in (x, ground (arith, e))

not_z : bytes_eq (b's' ∷ []) (bytes "z") ≡ false
unfolding bytes_eq
not_z = refl

not_x : (x y : ℕ) → bytes_eq (x ∷ b's' ∷ []) (y ∷ b'x' ∷ []) ≡ false
unfolding bytes_eq
not_x x y = ground arith

pluralize_ending-s : (w : Bytes) → IsPlainS w → pluralize_ending w ≡ some w
unfolding pluralize_ending tail_is unless_pluralized
pluralize_ending-s w (h, s, plain, sis, us) =
    let (x, e) = tail_two w (omega arith) in
    ground (
      arith,
      e,
      s,
      not_z,
      not_x x b'e',
      not_x x b'i',
      tail-some 2 w (omega arith),
      tail_one w (omega arith),
      root_and_suffix-some w h,
      already_pluralized-last w (omega arith),
    )

-- A word of at least three bytes that ends in "s", is not in the dictionary and ends in neither
-- "sis" nor "us" is returned as it is: the rules for "-ius", for a vowel before "s" and for "-es"
-- after "s" have no effect.
pluralize-s : (w : Bytes) → IsPlainS w → pluralize w ≡ some w
unfolding pluralize tail_is
pluralize-s [] (h, s, plain, sis, us) = absurd (omega arith)
pluralize-s (b ∷ bs) (h, s, plain, sis, us) = ground (
  arith,
  plain,
  bytes_eq_iff (lookup plural_dictionary (b ∷ bs)) [],
  tail-some 3 (b ∷ bs) h,
  pluralize_ending-s (b ∷ bs) (h, s, plain, sis, us),
)
