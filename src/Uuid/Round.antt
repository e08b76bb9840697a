-- ===== src/Uuid/Round.antt =====
-- utils/uuid.go: a UUID made short and long again.
use mathlib.Core.List.{append_assoc}
use wgo.Common.{
  lower, ℕ, zero, suc, ◌+◌, ◌-◌, ◌<◌, ◌≤◌, ◌≡◌, refl, sym, ap, ◌∙◌, true, false, none, some, [],
  ◌∷◌, ◌++◌, Bytes, bytes, ltb, leb, length, length-append, take, drop, replicate, arith, All,
  All-take, All-drop, append_nil,
}
use wgo.Uuid.{
  remove_dashes, set_string, shorten_value, uuid_value, shorten_uuid, hex_text, hex_of_difference,
  pad_zero, group, lengthen_uuid,
}
use wgo.Uuid.Digits.{long_value-shorten_value}
use wgo.Uuid.Hex.{
  IsHex, All-append, hex_text-All, parse_from-padded, zeros-All, lower-All, remove_dashes-All,
  set_string-All,
}

length-drop : (n : ℕ) (l : Bytes) → length (drop n l) ≡ length l - n
length-drop zero l = omega arith
length-drop (suc n) [] = omega arith
length-drop (suc n) (x ∷ l) = omega (arith, length-drop n l)

length-take : (n : ℕ) (l : Bytes) → n ≤ length l → length (take n l) ≡ n
length-take zero l h = refl
length-take (suc n) [] h = absurd (omega arith)
length-take (suc n) (x ∷ l) h = ap suc (length-take n l (omega (arith, h)))

take-drop : (n : ℕ) (l : Bytes) → take n l ++ drop n l ≡ l
take-drop zero l = refl
take-drop (suc n) [] = refl
take-drop (suc n) (x ∷ l) = ap (λ (t : Bytes). x ∷ t) (take-drop n l)

drop_nil : (n : ℕ) → drop {A = ℕ} n [] ≡ []
drop_nil zero = refl
drop_nil (suc n) = refl

drop-drop : (m n : ℕ) (l : Bytes) → drop n (drop m l) ≡ drop (m + n) l
drop-drop zero n l = ap (λ (x : ℕ). drop x l) (omega arith)
drop-drop (suc m) n [] = drop_nil n ∙ sym (drop_nil (suc m + n))
drop-drop (suc m) n (x ∷ l) =
    let next : suc (m + n) ≡ suc m + n = omega arith in
    drop-drop m n l ∙ ap (λ (k : ℕ). drop k (x ∷ l)) next

-- A part of a text, and what follows it.
piece : (m n j : ℕ) (l : Bytes) → m + n ≡ j → take n (drop m l) ++ drop j l ≡ drop m l
piece m n j l e =
    ap (λ (x : ℕ). take n (drop m l) ++ drop x l) (sym e)
    ∙ ap (λ (t : Bytes). take n (drop m l) ++ t) (sym (drop-drop m n l))
    ∙ take-drop n (drop m l)

pad_zero-full : (n : ℕ) (s : Bytes) → length s ≡ n → pad_zero n s ≡ s
pad_zero-full n s e =
    let full : n - length s ≡ 0 = omega (arith, e) in ap (λ (k : ℕ). replicate k b'0' ++ s) full

piece-full :
    (m n : ℕ) (l : Bytes) → m + n ≤ length l → pad_zero n (take n (drop m l)) ≡ take n (drop m l)
piece-full m n l h =
    pad_zero-full n _ (length-take n (drop m l) (omega (arith, length-drop m l, h)))

-- The groups of a text of `k + 24` digits.
abbrev groups : ℕ → Bytes → Bytes
groups k b =
    pad_zero 8 (take k b)
    ++ (bytes "-"
        ++ (take 4 (drop k b)
            ++ (bytes "-"
                ++ (take 4 (drop (k + 4) b)
                    ++ (bytes "-"
                        ++ (take 4 (drop (k + 8) b) ++ (bytes "-" ++ drop (k + 12) b)))))))

group-groups : (k : ℕ) (b : Bytes) → length b ≡ k + 24 → group b ≡ some (groups k b)
unfolding group
group-groups k b e =
    let e24 : (k + 24) - 24 ≡ k = omega arith in
    let e20 : (k + 24) - 20 ≡ k + 4 = omega arith in
    let e16 : (k + 24) - 16 ≡ k + 8 = omega arith in
    let e12 : (k + 24) - 12 ≡ k + 12 = omega arith in
    let big : ltb (k + 24) 24 ≡ false = ground arith in
    let b1 = piece-full k 4 b (omega (arith, e)) in
    let b2 = piece-full (k + 4) 4 b (omega (arith, e)) in
    let b3 = piece-full (k + 8) 4 b (omega (arith, e)) in
    let b4 = pad_zero-full 12 (drop (k + 12) b) (omega (arith, length-drop (k + 12) b, e)) in
    rw e (rw (big, e24, e20, e16, e12) (rw (b1, b2, b3, b4) refl))

-- One group before a dash.
dashed :
    (x t t' : Bytes)
    → All IsHex x
    → remove_dashes t ≡ t'
    → remove_dashes (x ++ (bytes "-" ++ t)) ≡ x ++ t'
unfolding remove_dashes
dashed x t t' h e = remove_dashes-All x (b'-' ∷ t) h ∙ ap (λ (y : Bytes). x ++ y) e

-- The groups without the dashes are the padded text.
remove_dashes-groups :
    (k : ℕ) (b : Bytes)
    → All IsHex b
    → remove_dashes (groups k b) ≡ replicate (8 - length (take k b)) b'0' ++ b
unfolding remove_dashes
remove_dashes-groups k b h =
    let p0 =
      All-append (replicate (8 - length (take k b)) b'0') (take k b) (zeros-All _)
        (All-take IsHex k b h) in
    let p1 = All-take IsHex 4 (drop k b) (All-drop IsHex k b h) in
    let p2 = All-take IsHex 4 (drop (k + 4) b) (All-drop IsHex (k + 4) b h) in
    let p3 = All-take IsHex 4 (drop (k + 8) b) (All-drop IsHex (k + 8) b h) in
    let p4 = All-drop IsHex (k + 12) b h in
    let d4 : remove_dashes (drop (k + 12) b) ≡ drop (k + 12) b =
      ap remove_dashes (sym (append_nil (drop (k + 12) b)))
      ∙ remove_dashes-All (drop (k + 12) b) [] p4
      ∙ append_nil (drop (k + 12) b) in
    let d3 : remove_dashes (take 4 (drop (k + 8) b) ++ (bytes "-" ++ drop (k + 12) b))
        ≡ drop (k + 8) b =
      dashed _ _ _ p3 d4 ∙ piece (k + 8) 4 (k + 12) b (omega arith) in
    let d2 : remove_dashes (
          take 4 (drop (k + 4) b)
          ++ (bytes "-" ++ (take 4 (drop (k + 8) b) ++ (bytes "-" ++ drop (k + 12) b))))
        ≡ drop (k + 4) b =
      dashed _ _ _ p2 d3 ∙ piece (k + 4) 4 (k + 8) b (omega arith) in
    let d1 = dashed _ _ _ p1 d2 ∙ piece k 4 (k + 4) b (omega arith) in
    dashed _ _ _ p0 d1
    ∙ append_assoc (replicate (8 - length (take k b)) b'0') (take k b) (drop k b)
    ∙ ap (λ (y : Bytes). replicate (8 - length (take k b)) b'0' ++ y) (take-drop k b)

-- The number of the groups is that of the digits.
uuid_value-groups :
    (k n : ℕ) → length (hex_text n) ≡ k + 24 → uuid_value (groups k (hex_text n)) ≡ some n
unfolding uuid_value
uuid_value-groups k n e =
    let b = hex_text n in
    let zeros = 8 - length (take k b) in
    let all = All-append (replicate zeros b'0') b (zeros-All zeros) (hex_text-All n) in
    ap (λ (s : Bytes). set_string (lower s)) (remove_dashes-groups k b (hex_text-All n))
    ∙ ap set_string (lower-All (replicate zeros b'0' ++ b) all)
    ∙ set_string-All (replicate zeros b'0' ++ b) n all
        (omega (arith, length-append (replicate zeros b'0') b, e)) (parse_from-padded zeros n)

hex_of_difference-pos : (n : ℕ) → hex_of_difference (n, 0) ≡ hex_text n
unfolding hex_of_difference
hex_of_difference-pos n =
    let whole : n - 0 ≡ n = omega arith in
    let above : leb 0 n ≡ true = ground arith in rw (above, whole) refl

lengthen_uuid-shorten_value : (n : ℕ) → lengthen_uuid (shorten_value n) ≡ group (hex_text n)
unfolding lengthen_uuid
lengthen_uuid-shorten_value n =
    ap (λ (p : ℕ × ℕ). group (hex_of_difference p)) (long_value-shorten_value n)
    ∙ ap group (hex_of_difference-pos n)

shorten_uuid-value :
    (s : Bytes) (n : ℕ) → uuid_value s ≡ some n → shorten_uuid s ≡ some (shorten_value n)
unfolding shorten_uuid
shorten_uuid-value s n e = rw (e, shorten_uuid) refl

-- For a text that stands for a number of 24 hexadecimal digits at least, with or without dashes and
-- in letters of either case: the short form is made, from it a long form, and that stands for the
-- same number.
pub lengthen_uuid-shorten_uuid :
    (s : Bytes) (n k : ℕ)
    → uuid_value s ≡ some n
    → length (hex_text n) ≡ k + 24
    → (t : Bytes) × (l : Bytes) × (shorten_uuid s ≡ some t)
      × (lengthen_uuid t ≡ some l)
      × (uuid_value l ≡ uuid_value s)
lengthen_uuid-shorten_uuid s n k e len = (
  shorten_value n,
  groups k (hex_text n),
  shorten_uuid-value s n e,
  lengthen_uuid-shorten_value n ∙ group-groups k (hex_text n) len,
  uuid_value-groups k n len ∙ sym e,
)

group-short : (b : Bytes) → length b < 24 → group b ≡ none
unfolding group
group-short b h = let short : ltb (length b) 24 ≡ true = ground (arith, h) in rw short refl

-- For a text that stands for a number of less than 24 hexadecimal digits, as a UUID with more than
-- eight leading zeros does, the short form is made, but to make it long again panics.
pub lengthen_uuid-none :
    (s : Bytes) (n : ℕ)
    → uuid_value s ≡ some n
    → length (hex_text n) < 24
    → (t : Bytes) × (shorten_uuid s ≡ some t) × (lengthen_uuid t ≡ none)
lengthen_uuid-none s n e len = (
  shorten_value n,
  shorten_uuid-value s n e,
  lengthen_uuid-shorten_value n ∙ group-short (hex_text n) len,
)
