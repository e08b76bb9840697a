-- ===== src/Router/Prefix.antt =====
-- Prefixes of paths: what `lcp` measures, and what is left of a path behind a prefix.
use wgo.Common.{
  ◌⊎◌, bytes_eq, sym, ℕ, zero, suc, ◌+◌, ◌≡◌, ◌≢◌, refl, ap, false, Option, none, some, [], ◌∷◌,
  Bytes, ◌==◌, if◌then◌else◌, length, drop, take, arith, Bool-cases, inl, inr, ne_of_==, ◌≤◌, ◌<◌,
}
use wgo.Router.Node.{first_byte, lcp}

-- What is left of `s` behind the prefix `p`.
unfoldable pub strip : Bytes → Bytes → Option Bytes
strip [] s = some s
strip (a ∷ p) [] = none
strip (a ∷ p) (b ∷ s) = if b == a then strip p s else none

pub lcp_of_strip :
    (p s rest : Bytes)
    → strip p s ≡ some rest
    → (lcp s p ≡ length p) × (drop (length p) s ≡ rest) × (length rest + length p ≡ length s)
unfolding lcp strip
lcp_of_strip [] [] rest h = ground arith
lcp_of_strip [] (b ∷ s) rest h = ground arith
lcp_of_strip (a ∷ p) [] rest h = cc
lcp_of_strip (a ∷ p) (b ∷ s) rest h = elim (Bool-cases (b == a)) [
  | inl same ↦
      let r = lcp_of_strip p s rest (rw same at h) in
      (rw same (ap suc r.0), r.1, omega (arith, r.2))
  | inr other ↦ absurd (none-ne-some (rw other at h))
]
  where
    none-ne-some : none ≢ some rest
    none-ne-some e = cc

pub lcp_of_strip-none : (p s : Bytes) → strip p s ≡ none → lcp s p ≢ length p
unfolding lcp strip
lcp_of_strip-none [] s h = cc
lcp_of_strip-none (a ∷ p) [] h = omega arith
lcp_of_strip-none (a ∷ p) (b ∷ s) h = elim (Bool-cases (b == a)) [
  | inl same ↦ rw same (λ e. lcp_of_strip-none p s (rw same at h) (omega arith))
  | inr other ↦ rw other (omega arith)
]

pub strip_nil : (p : Bytes) → p ≢ [] → strip p [] ≡ none
unfolding strip
strip_nil [] h = absurd (h refl)
strip_nil (a ∷ p) h = refl

pub strip_ne :
    (p : Bytes) (b : ℕ) (bs : Bytes) → p ≢ [] → first_byte p ≢ b → strip p (b ∷ bs) ≡ none
unfolding strip
strip_ne [] b bs h ne = absurd (h refl)
strip_ne (a ∷ p) b bs h ne = ground arith

-- A prefix is taken off in two parts.
pub strip-take :
    (l : ℕ) (p q : Bytes)
    → strip p q ≡ elim (strip (take l p) q) [ none ↦ none | some r ↦ strip (drop l p) r ]
unfolding strip
strip-take zero p q = refl
strip-take (suc l) [] q = refl
strip-take (suc l) (a ∷ p) [] = refl
strip-take (suc l) (a ∷ p) (b ∷ q) = ground (arith, strip-take l p q)

pub strip-take-lcp : (s p : Bytes) → strip (take (lcp s p) p) s ≡ some (drop (lcp s p) s)
unfolding strip lcp
strip-take-lcp [] p = refl
strip-take-lcp (b ∷ s) [] = refl
strip-take-lcp (b ∷ s) (a ∷ p) = elim (Bool-cases (b == a)) [
  | inl same ↦ rw same (rw same (strip-take-lcp s p))
  | inr other ↦ rw other refl
]

-- Behind the longest common prefix the texts differ.
pub first_byte-lcp :
    (s p : Bytes)
    → lcp s p < length p
    → lcp s p < length s
    → first_byte (drop (lcp s p) p) ≢ first_byte (drop (lcp s p) s)
unfolding lcp
first_byte-lcp [] p h k = absurd (omega arith)
first_byte-lcp (b ∷ s) [] h k = absurd (omega arith)
first_byte-lcp (b ∷ s) (a ∷ p) h k = elim (Bool-cases (b == a)) [
  | inl same ↦
      let h' : suc (suc (lcp s p)) ≤ suc (length p) = rw same at h in
      let k' : suc (suc (lcp s p)) ≤ suc (length s) = rw same at k in
      rw same (first_byte-lcp s p (omega arith) (omega arith))
  | inr other ↦ rw other (λ e. ne_of_== b a other (sym e))
]

pub drop-ne-nil : (l : ℕ) (p : Bytes) → l < length p → drop l p ≢ []
drop-ne-nil zero [] h = absurd (omega arith)
drop-ne-nil zero (a ∷ p) h = cc
drop-ne-nil (suc l) [] h = absurd (omega arith)
drop-ne-nil (suc l) (a ∷ p) h = drop-ne-nil l p (omega arith)

pub bytes_eq-strip :
    (p s q s' r : Bytes) → strip p s ≡ some s' → strip p q ≡ some r → bytes_eq s q ≡ bytes_eq s' r
unfolding strip bytes_eq
bytes_eq-strip [] s q s' r e k = cc
bytes_eq-strip (a ∷ p) [] q s' r e k = cc
bytes_eq-strip (a ∷ p) (b ∷ s) [] s' r e k = cc
bytes_eq-strip (a ∷ p) (b ∷ s) (c ∷ q) s' r e k = ground (arith, bytes_eq-strip p s q s' r)

pub bytes_eq-strip-none :
    (p s q s' : Bytes) → strip p s ≡ some s' → strip p q ≡ none → bytes_eq s q ≡ false
unfolding strip bytes_eq
bytes_eq-strip-none [] s q s' e k = cc
bytes_eq-strip-none (a ∷ p) [] q s' e k = cc
bytes_eq-strip-none (a ∷ p) (b ∷ s) [] s' e k = refl
bytes_eq-strip-none (a ∷ p) (b ∷ s) (c ∷ q) s' e k = ground (arith, bytes_eq-strip-none p s q s')

pub strip_self : (p : Bytes) → strip p p ≡ some []
unfolding strip
strip_self [] = refl
strip_self (a ∷ p) = ground (arith, strip_self p)

pub strip-lcp : (s p : Bytes) → lcp s p ≡ length p → strip p s ≡ some (drop (lcp s p) s)
unfolding strip lcp
strip-lcp [] [] e = refl
strip-lcp [] (a ∷ p) e = absurd (omega arith)
strip-lcp (b ∷ s) [] e = refl
strip-lcp (b ∷ s) (a ∷ p) e = elim (Bool-cases (b == a)) [
  | inl same ↦
      let e' : suc (lcp s p) ≡ suc (length p) = rw same at e in
      rw same (strip-lcp s p (omega arith))
  | inr other ↦ absurd (zero-ne-suc (rw other at e))
]
  where
    zero-ne-suc : 0 ≢ suc (length p)
    zero-ne-suc e' = omega arith

pub lcp-le : (s p : Bytes) → (lcp s p ≤ length s) × (lcp s p ≤ length p)
unfolding lcp
lcp-le [] p = omega arith
lcp-le (b ∷ s) [] = omega arith
lcp-le (b ∷ s) (a ∷ p) = ground (arith, lcp-le s p)

pub bytes_eq_nil : (a : Bytes) → a ≢ [] → bytes_eq a [] ≡ false
unfolding bytes_eq
bytes_eq_nil [] h = absurd (h refl)
bytes_eq_nil (a ∷ s) h = refl

pub bytes_eq_first :
    (a : Bytes) (b : ℕ) (bs : Bytes) → a ≢ [] → first_byte a ≢ b → bytes_eq a (b ∷ bs) ≡ false
unfolding bytes_eq
bytes_eq_first [] b bs h ne = absurd (h refl)
bytes_eq_first (a ∷ s) b bs h ne = ground arith

pub drop-length : (l : ℕ) (s : Bytes) → l ≡ length s → drop l s ≡ []
drop-length zero [] e = refl
drop-length zero (a ∷ s) e = absurd (omega arith)
drop-length (suc l) [] e = refl
drop-length (suc l) (a ∷ s) e = drop-length l s (omega arith)

pub split_cases :
    (s p : Bytes)
    → (lcp s p < length p)
      ⊎ (((lcp s p ≡ length p) × (lcp s p < length s))
          ⊎ ((lcp s p ≡ length p) × (lcp s p ≡ length s)))
split_cases s p = omega (arith, lcp-le s p)
