-- ===== src/Work/Pool/Sums.antt =====
-- Sums over lists and over the workers below a bound.
use wgo.Common.{
  ℕ, zero, suc, ◌+◌, ◌≤◌, ◌<◌, ◌≡◌, refl, ap, List, [], ◌∷◌, ◌++◌, ◌==◌, if◌then◌else◌, arith,
}
use wgo.Work.Pool.{set_at}
use native.Mathlib.Decide.{dec_lt}

-- 1 where the numbers are equal, else 0.
abbrev pub is : ℕ → ℕ → ℕ
is j k = if j == k then 1 else 0

module _ {ℓ} {A : Type ℓ} (f : A → ℕ) where
  unfoldable pub sum_of : List A → ℕ
  sum_of [] = 0
  sum_of (x ∷ xs) = f x + sum_of xs

  pub sum_of-empty : sum_of [] ≡ 0
  unfolding sum_of
  sum_of-empty = refl

  pub sum_of-cons : (x : A) (xs : List A) → sum_of (x ∷ xs) ≡ f x + sum_of xs
  unfolding sum_of
  sum_of-cons x xs = refl

  pub sum_of-append : (xs ys : List A) → sum_of (xs ++ ys) ≡ sum_of xs + sum_of ys
  unfolding sum_of
  sum_of-append [] ys = omega arith
  sum_of-append (x ∷ xs) ys = omega (arith, sum_of-append xs ys)

  pub sum_of-snoc : (xs : List A) (x : A) → sum_of (xs ++ x ∷ []) ≡ sum_of xs + f x
  unfolding sum_of
  sum_of-snoc xs x = omega (arith, sum_of-append xs (x ∷ []))

  -- Taking one element out of a list takes its weight out of the sum.
  pub sum_of-cut :
      (l a : List A) (x : A) (b : List A) → l ≡ a ++ x ∷ b → sum_of l ≡ sum_of (a ++ b) + f x
  unfolding sum_of
  sum_of-cut l a x b e = rw e (omega (arith, sum_of-append a (x ∷ b), sum_of-append a b))

  unfoldable pub sum_below : ℕ → (ℕ → A) → ℕ
  sum_below zero g = 0
  sum_below (suc n) g = sum_below n g + f (g n)

  sum_below-set_at_ge :
      (n : ℕ) (g : ℕ → A) (i : ℕ) (a : A) → n ≤ i → sum_below n (set_at g i a) ≡ sum_below n g
  unfolding sum_below
  sum_below-set_at_ge zero g i a h = refl
  sum_below-set_at_ge (suc n) g i a h = ground (arith, sum_below-set_at_ge n g i a (omega arith))

  pub sum_below-set_at :
      (n : ℕ) (g : ℕ → A) (i : ℕ) (a : A)
      → i < n
      → sum_below n (set_at g i a) + f (g i) ≡ sum_below n g + f a
  unfolding sum_below
  sum_below-set_at zero g i a h = absurd (omega arith)
  sum_below-set_at (suc n) g i a h = elim (dec_lt i n) [
    | yes p ↦ ground (arith, sum_below-set_at n g i a p)
    | no p ↦ ground (arith, sum_below-set_at_ge n g i a)
  ]

  pub sum_below-zero : (n : ℕ) (g : ℕ → A) → ((i : ℕ) → f (g i) ≡ 0) → sum_below n g ≡ 0
  unfolding sum_below
  sum_below-zero zero g h = refl
  sum_below-zero (suc n) g h = omega (arith, sum_below-zero n g h, h n)

  -- A term below the greatest possible keeps the sum below the greatest possible.
  pub sum_below-le : (n : ℕ) (g : ℕ → A) → ((a : A) → f a ≤ 1) → sum_below n g ≤ n
  unfolding sum_below
  sum_below-le zero g h = omega arith
  sum_below-le (suc n) g h = omega (arith, sum_below-le n g h, h (g n))

  pub sum_below-lt :
      (n : ℕ) (g : ℕ → A) (i : ℕ) → ((a : A) → f a ≤ 1) → i < n → f (g i) ≡ 0 → sum_below n g < n
  unfolding sum_below
  sum_below-lt zero g i h lt e = absurd (omega arith)
  sum_below-lt (suc n) g i h lt e = elim (dec_lt i n) [
    | yes p ↦ omega (arith, sum_below-lt n g i h p e, h (g n))
    | no p ↦
        let same : i ≡ n = omega arith in
        omega (arith, sum_below-le n g h, ap (λ (k : ℕ). f (g k)) same)
  ]
