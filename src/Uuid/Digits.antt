-- ===== src/Uuid/Digits.antt =====
-- utils/uuid.go: the digits of the short form stand for the number they were made of.
use wgo.Common.{
  ℕ, zero, suc, ◌+◌, ◌*◌, ◌/◌, ◌%◌, ◌<◌, ◌≤◌, ◌≡◌, refl, sym, ap, ◌∙◌, inl, inr, Bool, true, false,
  ◌&&◌, Option, none, some, ◌∷◌, ◌++◌, Bytes, ◌==◌, get_or, replicate, arith, Bool-cases, eq_of_==,
  ne_of_==,
}
use wgo.Uuid.{alphabet, short_digits, shorten_value, index_from, long_value}

abbrev is_at : Option ℕ → ℕ → Bool
is_at none n = false
is_at (some i) n = i == n

is_at-some : (o : Option ℕ) (n : ℕ) → is_at o n ≡ true → o ≡ some n
is_at-some none n h = cc h
is_at-some (some i) n h = ap some (eq_of_== i n h)

and_both : (a b : Bool) → (a && b) ≡ true → (a ≡ true) × (b ≡ true)
and_both true b h = (refl, h)
and_both false b h = cc h

-- Whether `f` finds each number below `n` at its own place.
abbrev in_place : (ℕ → Option ℕ) → ℕ → Bool
in_place f zero = true
in_place f (suc n) = is_at (f n) n && in_place f n

in_place-index : (f : ℕ → Option ℕ) (n d : ℕ) → in_place f n ≡ true → d < n → f d ≡ some d
in_place-index f zero d h lt = absurd (omega arith)
in_place-index f (suc n) d h lt =
    let both = and_both (is_at (f n) n) (in_place f n) h in
    elim (Bool-cases (d == n)) [
      | inl e ↦
          let same = eq_of_== d n e in ap f same ∙ is_at-some (f n) n both.0 ∙ ap some (sym same)
      | inr e ↦ in_place-index f n d both.1 (omega (arith, lt, ne_of_== d n e))
    ]

-- Where the alphabet has its `d`-th byte.
abbrev place : ℕ → Option ℕ
place d = index_from 0 alphabet (get_or alphabet d 0)

all_in_place : in_place place 57 ≡ true
unfolding index_from
all_in_place = refl

pub index_of_digit : (d : ℕ) → d < 57 → index_from 0 alphabet (get_or alphabet d 0) ≡ some d
index_of_digit d lt = in_place-index place 57 d all_in_place lt

long_value-cons :
    (d p : ℕ) (cs : Bytes)
    → d < 57
    → long_value cs ≡ (p, 0)
    → long_value (get_or alphabet d 0 ∷ cs) ≡ (p * 57 + d, 0)
unfolding long_value
long_value-cons d p cs lt e = rw (index_of_digit d lt, long_value) (rw e refl)

long_value-padding : (k : ℕ) → long_value (replicate k (get_or alphabet 0 0)) ≡ (0, 0)
unfolding long_value
long_value-padding zero = refl
long_value-padding (suc k) = long_value-cons 0 0 _ (omega arith) (long_value-padding k)

long_value-short_digits :
    (fuel n k : ℕ)
    → n ≤ fuel
    → long_value (short_digits fuel n ++ replicate k (get_or alphabet 0 0)) ≡ (n, 0)
unfolding short_digits
long_value-short_digits zero n k h =
    long_value-padding k ∙ ap (λ (x : ℕ). (x, 0)) (omega (arith, h))
long_value-short_digits (suc fuel) n k h = elim (Bool-cases (n == 0)) [
  | inl e ↦
      rw (e, short_digits) (long_value-padding k ∙ ap (λ (x : ℕ). (x, 0)) (sym (eq_of_== n 0 e)))
  | inr e ↦
      rw (e, short_digits)
        (long_value-cons (n % 57) (n / 57) _ (omega arith)
            (long_value-short_digits fuel (n / 57) k (omega (arith, h, ne_of_== n 0 e)))
          ∙ ap (λ (x : ℕ). (x, 0)) (omega arith))
]

pub long_value-shorten_value : (n : ℕ) → long_value (shorten_value n) ≡ (n, 0)
unfolding shorten_value
long_value-shorten_value n = long_value-short_digits n n _ (omega arith)
