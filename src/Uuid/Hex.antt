-- ===== src/Uuid/Hex.antt =====
-- utils/uuid.go: the hexadecimal digits of a number are read back as that number.
use wgo.Common.{
  lower, to_lower, ℕ, zero, suc, ◌+◌, ◌*◌, ◌/◌, ◌%◌, ◌<◌, ◌≤◌, ◌≡◌, refl, sym, ap, ◌∙◌, inl, inr,
  false, Option, none, some, [], ◌∷◌, ◌++◌, Bytes, ◌==◌, length, replicate, arith, Bool-cases,
  Option-cases, eq_of_==, ne_of_==, All,
}
use wgo.Uuid.{
  remove_dashes, hex_value, parse_from, parse_digits, set_string, hex_digit, hex_from, hex_text,
}

-- What a text of hexadecimal digits in lower case needs to pass `ToLower` and the rest unchanged.
abbrev pub IsHex : ℕ → Type 0
IsHex c = (to_lower c ≡ c) × ((c == b'-') ≡ false) × ((c == b'+') ≡ false)

hex_digit-IsHex : (d : ℕ) → d < 16 → IsHex (hex_digit d)
hex_digit-IsHex d h = (ground (arith, h), ground (arith, h), ground (arith, h))

hex_value-hex_digit : (d : ℕ) → d < 16 → hex_value (hex_digit d) ≡ some d
unfolding hex_value
hex_value-hex_digit d h = ground (arith, h)

pub All-append : (a b : Bytes) → All IsHex a → All IsHex b → All IsHex (a ++ b)
All-append [] b p q = q
All-append (c ∷ a) b p q = (p.0, All-append a b p.1 q)

hex_from-All : (fuel n : ℕ) → All IsHex (hex_from fuel n)
unfolding hex_from
hex_from-All zero n = tt
hex_from-All (suc fuel) n = elim (Bool-cases (n == 0)) [
  | inl e ↦ rw (e, hex_from) tt
  | inr e ↦
      rw (e, hex_from)
        (All-append (hex_from fuel (n / 16)) _ (hex_from-All fuel (n / 16))
          (hex_digit-IsHex (n % 16) (omega arith), tt))
]

pub hex_text-All : (n : ℕ) → All IsHex (hex_text n)
unfolding hex_text
hex_text-All n = elim (Bool-cases (n == 0)) [
  | inl e ↦ rw e ((refl, refl, refl), tt)
  | inr e ↦ rw e (hex_from-All n n)
]

absurd_none : {A : Type 0} {v : ℕ} → ◌≡◌ {A = Option ℕ} none (some v) → A
absurd_none h = cc h

pub parse_from-append :
    (a b : Bytes) (acc v : ℕ) → parse_from acc a ≡ some v → parse_from acc (a ++ b) ≡ parse_from v b
unfolding parse_from
parse_from-append [] b acc v h =
    ap (λ (x : Option ℕ). elim x [ none ↦ none | some y ↦ parse_from y b ]) h
parse_from-append (c ∷ a) b acc v h = elim (Option-cases (hex_value c)) [
  | inl e ↦ absurd_none (rw (e, parse_from) at h)
  | inr (d, e) ↦
      rw (e, parse_from) (parse_from-append a b (acc * 16 + d) v (rw (e, parse_from) at h))
]

last_digit : (n : ℕ) → parse_from (n / 16) (hex_digit (n % 16) ∷ []) ≡ some n
unfolding parse_from
last_digit n = rw (hex_value-hex_digit (n % 16) (omega arith), parse_from) (ap some (omega arith))

parse_from-hex_from : (fuel n : ℕ) → n ≤ fuel → parse_from 0 (hex_from fuel n) ≡ some n
unfolding hex_from parse_from
parse_from-hex_from zero n h = ap some (omega (arith, h))
parse_from-hex_from (suc fuel) n h = elim (Bool-cases (n == 0)) [
  | inl e ↦ rw (e, hex_from) (ap some (sym (eq_of_== n 0 e)))
  | inr e ↦
      rw (e, hex_from)
        (parse_from-append (hex_from fuel (n / 16)) (hex_digit (n % 16) ∷ []) 0 (n / 16)
            (parse_from-hex_from fuel (n / 16) (omega (arith, h, ne_of_== n 0 e)))
          ∙ last_digit n)
]

pub parse_from-hex_text : (n : ℕ) → parse_from 0 (hex_text n) ≡ some n
unfolding hex_text parse_from hex_value
parse_from-hex_text n = elim (Bool-cases (n == 0)) [
  | inl e ↦ rw e (ap some (sym (eq_of_== n 0 e)))
  | inr e ↦ rw e (parse_from-hex_from n n (omega arith))
]

parse_from-zeros : (k : ℕ) → parse_from 0 (replicate k b'0') ≡ some 0
unfolding parse_from hex_value
parse_from-zeros zero = refl
parse_from-zeros (suc k) = parse_from-zeros k

-- Leading zeros do not count.
pub parse_from-padded : (k n : ℕ) → parse_from 0 (replicate k b'0' ++ hex_text n) ≡ some n
parse_from-padded k n =
    parse_from-append (replicate k b'0') (hex_text n) 0 0 (parse_from-zeros k)
    ∙ parse_from-hex_text n

pub zeros-All : (k : ℕ) → All IsHex (replicate k b'0')
zeros-All zero = tt
zeros-All (suc k) = ((refl, refl, refl), zeros-All k)

pub lower-All : (s : Bytes) → All IsHex s → lower s ≡ s
lower-All [] h = refl
lower-All (c ∷ s) h =
    ap (λ (x : ℕ). x ∷ lower s) h.0.0 ∙ ap (λ (x : Bytes). c ∷ x) (lower-All s h.1)

pub remove_dashes-All : (s t : Bytes) → All IsHex s → remove_dashes (s ++ t) ≡ s ++ remove_dashes t
unfolding remove_dashes
remove_dashes-All [] t h = refl
remove_dashes-All (c ∷ s) t h = rw h.0.1 (ap (λ (x : Bytes). c ∷ x) (remove_dashes-All s t h.1))

pub set_string-All :
    (s : Bytes) (v : ℕ)
    → All IsHex s
    → 0 < length s
    → parse_from 0 s ≡ some v
    → set_string s ≡ some v
unfolding set_string parse_digits
set_string-All [] v h pos e = absurd (omega arith)
set_string-All (c ∷ s) v h pos e = rw h.0.2 e
