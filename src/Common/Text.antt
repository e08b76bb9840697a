-- ===== src/Common/Text.antt =====
-- Go's strings, byte by byte, and their comparison.
use mathlib.Core.Option.{some, none, Option}
use Prim.Native.Nat.{◌+◌, ◌-◌, ℕ}
use Prim.Native.Char.{code}
use Prim.Native.String.{String}
use mathlib.Core.Path.{◌≡◌, refl}
use mathlib.Core.Logic.{◌↔◌, ◌≢◌, inl, inr}
use mathlib.Core.Bool.{Bool, true, false, ◌&&◌, ◌||◌}
use mathlib.Core.List.{List, [], ◌∷◌, ◌++◌}
use native.Mathlib.Omega.{arith}
use wgo.Common.Tests.{if◌then◌else◌, leb, ◌==◌, Bool-cases}

abbrev pub Bytes : Type 0
Bytes = List ℕ

-- The bytes of an ASCII literal.
abbrev pub bytes : String → Bytes
bytes String.[] = []
bytes (String.◌∷◌ c s) = code c ∷ bytes s

-- `a == b` on strings

unfoldable pub bytes_eq : Bytes → Bytes → Bool
bytes_eq [] [] = true
bytes_eq [] (b ∷ bs) = false
bytes_eq (a ∷ as') [] = false
bytes_eq (a ∷ as') (b ∷ bs) = a == b && bytes_eq as' bs

pub bytes_eq_refl : (a : Bytes) → bytes_eq a a ≡ true
unfolding bytes_eq
bytes_eq_refl [] = refl
bytes_eq_refl (a ∷ as') = ground (arith, bytes_eq_refl as')

pub bytes_eq_iff : (a b : Bytes) → (bytes_eq a b ≡ true) ↔ (a ≡ b)
unfolding bytes_eq
bytes_eq_iff [] [] = ground arith
bytes_eq_iff [] (b ∷ bs) = ground arith
bytes_eq_iff (a ∷ as') [] = ground arith
bytes_eq_iff (a ∷ as') (b ∷ bs) = ground (arith, bytes_eq_iff as' bs)

pub bytes_eq_of_ne : (a b : Bytes) → a ≢ b → bytes_eq a b ≡ false
bytes_eq_of_ne a b h = elim (Bool-cases (bytes_eq a b)) [
  | inl same ↦ absurd (h ((bytes_eq_iff a b).0 same))
  | inr other ↦ other
]

abbrev pub is_upper : ℕ → Bool
is_upper b = leb b'A' b && leb b b'Z'

abbrev pub to_lower : ℕ → ℕ
to_lower b = if is_upper b then b + 32 else b

-- `strings.ToLower` on ASCII
abbrev pub lower : Bytes → Bytes
lower [] = []
lower (b ∷ bs) = to_lower b ∷ lower bs

-- A read of a Go map, where a missing key is `none`.
unfoldable pub at_key : {A : Type 0} → List (Bytes × A) → Bytes → Option A
at_key [] k = none
at_key ((k', a) ∷ rest) k = if bytes_eq k' k then some a else at_key rest k

abbrev pub on_head : ℕ → List Bytes → List Bytes
on_head b [] = (b ∷ []) ∷ []
on_head b (p ∷ ps) = (b ∷ p) ∷ ps

-- `strings.Split` by one byte; it gives at least one part.
unfoldable pub split : ℕ → Bytes → List Bytes
split sep [] = [] ∷ []
split sep (b ∷ bs) = let parts = split sep bs in if b == sep then [] ∷ parts else on_head b parts

-- `strings.Join`
unfoldable pub join : Bytes → List Bytes → Bytes
join sep [] = []
join sep (s ∷ []) = s
join sep (s ∷ t ∷ rest) = s ++ (sep ++ join sep (t ∷ rest))

abbrev pub has_byte : ℕ → Bytes → Bool
has_byte c [] = false
has_byte c (b ∷ bs) = b == c || has_byte c bs

-- `strings.SplitN(s, sep, 2)`: what stands before the first `sep`, and what stands behind it.
unfoldable pub cut : ℕ → Bytes → Bytes × Option Bytes
cut sep [] = ([], none)
cut sep (b ∷ bs) =
    let (before, behind) = cut sep bs in if b == sep then ([], some bs) else (b ∷ before, behind)

abbrev pub is_lower : ℕ → Bool
is_lower b = leb b'a' b && leb b b'z'

abbrev pub to_upper : ℕ → ℕ
to_upper b = if is_lower b then b - 32 else b

-- `strings.ToUpper` on ASCII
abbrev pub upper : Bytes → Bytes
upper [] = []
upper (b ∷ bs) = to_upper b ∷ upper bs
