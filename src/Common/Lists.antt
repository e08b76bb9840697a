-- ===== src/Common/Lists.antt =====
-- Lists measured and indexed by native numbers, under the library's names, and windows of a list:
-- what Go's `s[m:m+n]` shows.
use Prim.Native.Nat.{ℕ, zero, suc, ◌+◌, ◌≤◌, ◌<◌}
use mathlib.Core.Path.{◌≡◌, refl, ap}
use mathlib.Core.Logic.{◌≢◌}
use mathlib.Core.List.{List, [], ◌∷◌, ◌++◌, map}
use native.Mathlib.Omega.{arith}

module _ {ℓ} {A : Type ℓ} where
  abbrev pub length : List A → ℕ
  length [] = 0
  length (x ∷ xs) = suc (length xs)

  abbrev pub get_or : List A → ℕ → A → A
  get_or [] i d = d
  get_or (x ∷ xs) zero d = x
  get_or (x ∷ xs) (suc i) d = get_or xs i d

  -- A write out of bounds changes nothing.
  abbrev pub set : List A → ℕ → A → List A
  set [] i v = []
  set (x ∷ xs) zero v = v ∷ xs
  set (x ∷ xs) (suc i) v = x ∷ set xs i v

  abbrev pub take : ℕ → List A → List A
  take zero xs = []
  take (suc n) [] = []
  take (suc n) (x ∷ xs) = x ∷ take n xs

  abbrev pub drop : ℕ → List A → List A
  drop zero xs = xs
  drop (suc n) [] = []
  drop (suc n) (x ∷ xs) = drop n xs

  abbrev pub replicate : ℕ → A → List A
  replicate zero a = []
  replicate (suc n) a = a ∷ replicate n a

  pub length-append : (xs ys : List A) → length (xs ++ ys) ≡ length xs + length ys
  length-append [] ys = omega arith
  length-append (x ∷ xs) ys = omega (arith, length-append xs ys)

  pub length-set : (xs : List A) (i : ℕ) (v : A) → length (set xs i v) ≡ length xs
  length-set [] i v = refl
  length-set (x ∷ xs) zero v = refl
  length-set (x ∷ xs) (suc i) v = ap suc (length-set xs i v)

  pub length-replicate : (n : ℕ) (a : A) → length (replicate n a) ≡ n
  length-replicate zero a = refl
  length-replicate (suc n) a = ap suc (length-replicate n a)

  pub get_or-set_self :
      (xs : List A) (i : ℕ) (v d : A) → i < length xs → get_or (set xs i v) i d ≡ v
  get_or-set_self [] i v d h = elim h [ ]
  get_or-set_self (x ∷ xs) zero v d h = refl
  get_or-set_self (x ∷ xs) (suc i) v d h = get_or-set_self xs i v d (omega arith)

  pub get_or-set_ne :
      (xs : List A) (i j : ℕ) (v d : A) → i ≢ j → get_or (set xs i v) j d ≡ get_or xs j d
  get_or-set_ne [] i j v d h = refl
  get_or-set_ne (x ∷ xs) zero zero v d h = absurd (h refl)
  get_or-set_ne (x ∷ xs) zero (suc j) v d h = refl
  get_or-set_ne (x ∷ xs) (suc i) zero v d h = refl
  get_or-set_ne (x ∷ xs) (suc i) (suc j) v d h = get_or-set_ne xs i j v d (λ e. h (ap suc e))

  pub get_or-replicate : (n i : ℕ) (a : A) → get_or (replicate n a) i a ≡ a
  get_or-replicate zero i a = refl
  get_or-replicate (suc n) zero a = refl
  get_or-replicate (suc n) (suc i) a = get_or-replicate n i a

module _ {ℓ} {A : Type ℓ} where
  -- The `n` entries of `xs` from index `m` on.
  abbrev pub window : ℕ → ℕ → List A → List A
  window n m xs = take n (drop m xs)

  take-set_ge : (n j : ℕ) (xs : List A) (v : A) → n ≤ j → take n (set xs j v) ≡ take n xs
  take-set_ge zero j xs v h = refl
  take-set_ge (suc n) j [] v h = refl
  take-set_ge (suc n) zero (x ∷ xs) v h = absurd (omega arith)
  take-set_ge (suc n) (suc j) (x ∷ xs) v h = ap (λ l. x ∷ l) (take-set_ge n j xs v (omega arith))

  take-set_lt : (n i : ℕ) (xs : List A) (v : A) → i < n → take n (set xs i v) ≡ set (take n xs) i v
  take-set_lt zero i xs v h = absurd (omega arith)
  take-set_lt (suc n) i [] v h = refl
  take-set_lt (suc n) zero (x ∷ xs) v h = refl
  take-set_lt (suc n) (suc i) (x ∷ xs) v h = ap (λ l. x ∷ l) (take-set_lt n i xs v (omega arith))

  pub window-set_self :
      (n m i j : ℕ) (xs : List A) (v : A)
      → j ≡ m + i
      → i < n
      → window n m (set xs j v) ≡ set (window n m xs) i v
  window-set_self n zero i j xs v e h =
      let same : j ≡ i = omega arith in rw same (take-set_lt n i xs v h)
  window-set_self zero (suc m) i j xs v e h = absurd (omega arith)
  window-set_self (suc n) (suc m) i j [] v e h = refl
  window-set_self (suc n) (suc m) i zero (x ∷ xs) v e h = absurd (omega arith)
  window-set_self (suc n) (suc m) i (suc j) (x ∷ xs) v e h =
      window-set_self (suc n) m i j xs v (omega arith) h

  pub window-set_below :
      (n m j : ℕ) (xs : List A) (v : A) → j < m → window n m (set xs j v) ≡ window n m xs
  window-set_below n zero j xs v h = absurd (omega arith)
  window-set_below n (suc m) j [] v h = refl
  window-set_below n (suc m) zero (x ∷ xs) v h = refl
  window-set_below n (suc m) (suc j) (x ∷ xs) v h = window-set_below n m j xs v (omega arith)

  pub window-set_above :
      (n m j : ℕ) (xs : List A) (v : A) → m + n ≤ j → window n m (set xs j v) ≡ window n m xs
  window-set_above n zero j xs v h = take-set_ge n j xs v (omega arith)
  window-set_above n (suc m) j [] v h = refl
  window-set_above n (suc m) zero (x ∷ xs) v h = absurd (omega arith)
  window-set_above n (suc m) (suc j) (x ∷ xs) v h = window-set_above n m j xs v (omega arith)

  take-replicate : (n k : ℕ) (a : A) → n ≤ k → take n (replicate k a) ≡ replicate n a
  take-replicate zero k a h = refl
  take-replicate (suc n) zero a h = absurd (omega arith)
  take-replicate (suc n) (suc k) a h = ap (λ l. a ∷ l) (take-replicate n k a (omega arith))

  pub window-replicate :
      (n m k : ℕ) (a : A) → m + n ≤ k → window n m (replicate k a) ≡ replicate n a
  window-replicate n zero k a h = take-replicate n k a (omega arith)
  window-replicate n (suc m) zero a h = absurd (omega arith)
  window-replicate n (suc m) (suc k) a h = window-replicate n m k a (omega arith)

  get_or-take : (n i : ℕ) (xs : List A) (d : A) → i < n → get_or (take n xs) i d ≡ get_or xs i d
  get_or-take zero i xs d h = absurd (omega arith)
  get_or-take (suc n) i [] d h = refl
  get_or-take (suc n) zero (x ∷ xs) d h = refl
  get_or-take (suc n) (suc i) (x ∷ xs) d h = get_or-take n i xs d (omega arith)

  pub get_or-window :
      (n m i j : ℕ) (xs : List A) (d : A)
      → j ≡ m + i
      → i < n
      → get_or (window n m xs) i d ≡ get_or xs j d
  get_or-window n zero i j xs d e h =
      let same : j ≡ i = omega arith in rw same (get_or-take n i xs d h)
  get_or-window zero (suc m) i j xs d e h = absurd (omega arith)
  get_or-window (suc n) (suc m) i j [] d e h = refl
  get_or-window (suc n) (suc m) i zero (x ∷ xs) d e h = absurd (omega arith)
  get_or-window (suc n) (suc m) i (suc j) (x ∷ xs) d e h =
      get_or-window (suc n) m i j xs d (omega arith) h

  pub get_or-replicate_append :
      (n i : ℕ) (a : A) (ys : List A) → i < n → get_or (replicate n a ++ ys) i a ≡ a
  get_or-replicate_append zero i a ys h = absurd (omega arith)
  get_or-replicate_append (suc n) zero a ys h = refl
  get_or-replicate_append (suc n) (suc i) a ys h = get_or-replicate_append n i a ys (omega arith)

module _ {ℓ κ} {A : Type ℓ} {B : Type κ} where
  pub length-map : (xs : List A) (f : A → B) → length (map f xs) ≡ length xs
  length-map [] f = refl
  length-map (x ∷ xs) f = ap suc (length-map xs f)

module _ {ℓ κ} {A : Type ℓ} (P : A → Type κ) where
  abbrev pub All : List A → Type κ
  All [] = Unit
  All (x ∷ xs) = P x × All xs

  pub All-set : (xs : List A) (i : ℕ) (v : A) → All xs → P v → All (set xs i v)
  All-set [] i v h p = tt
  All-set (x ∷ xs) zero v h p = (p, h.1)
  All-set (x ∷ xs) (suc i) v h p = (h.0, All-set xs i v h.1 p)

  pub All-get_or : (xs : List A) (i : ℕ) (d : A) → All xs → P d → P (get_or xs i d)
  All-get_or [] i d h p = p
  All-get_or (x ∷ xs) zero d h p = h.0
  All-get_or (x ∷ xs) (suc i) d h p = All-get_or xs i d h.1 p

  pub All-take : (n : ℕ) (xs : List A) → All xs → All (take n xs)
  All-take zero xs h = tt
  All-take (suc n) [] h = tt
  All-take (suc n) (x ∷ xs) h = (h.0, All-take n xs h.1)

  pub All-drop : (n : ℕ) (xs : List A) → All xs → All (drop n xs)
  All-drop zero xs h = h
  All-drop (suc n) [] h = tt
  All-drop (suc n) (x ∷ xs) h = All-drop n xs h.1

  pub All-append : (xs ys : List A) → All xs → All ys → All (xs ++ ys)
  All-append [] ys h k = k
  All-append (x ∷ xs) ys h k = (h.0, All-append xs ys h.1 k)

  pub All-parts : (xs ys : List A) → All (xs ++ ys) → All xs × All ys
  All-parts [] ys h = (tt, h)
  All-parts (x ∷ xs) ys h = let (a, b) = All-parts xs ys h.1 in ((h.0, a), b)

pub append_step {ℓ} :
    {A : Type ℓ} (a : List A) (x : A) (b : List A) → (a ++ x ∷ []) ++ b ≡ a ++ x ∷ b
append_step [] x b = refl
append_step (y ∷ a) x b = ap (λ z. y ∷ z) (append_step a x b)

pub append_nil {ℓ} : {A : Type ℓ} (a : List A) → a ++ [] ≡ a
append_nil [] = refl
append_nil (y ∷ a) = ap (λ z. y ∷ z) (append_nil a)
