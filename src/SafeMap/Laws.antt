-- ===== src/SafeMap/Laws.antt =====
-- utils/safemap.go: what `Get` and `Check` answer after the other operations.
use wgo.Common.{◌≡◌, ◌↔◌, ap, Bool, true, false, none, List, [], ◌∷◌, if◌then◌else◌, arith}
use wgo.SafeMap.{entry, map_get, map_check, remove}

module _ {K V : Type 0} (same : K → K → Bool) (same_value : V → V → Bool)
    (same_iff : (a b : K) → (same a b ≡ true) ↔ (a ≡ b))
    (same_value_iff : (a b : V) → (same_value a b ≡ true) ↔ (a ≡ b)) where
  -- Keys that are the same as one key are the same.
  same_trans : (a b c : K) → same a b ≡ true → same a c ≡ same b c
  same_trans a b c e = ap (λ x. same x c) ((same_iff a b).0 e)

  same-right : (a b c : K) → same b c ≡ true → same a b ≡ same a c
  same-right a b c e = ap (same a) ((same_iff b c).0 e)

  entry-remove :
      (m : List (K × V)) (k q : K)
      → entry same same_value (remove same same_value m k) q
        ≡ (if same k q then none else entry same same_value m q)
  unfolding entry remove
  entry-remove [] k q = ground arith
  entry-remove ((k', v') ∷ m) k q =
      ground (arith, entry-remove m k q, same_trans k' k q, same-right k' k q)

  -- After `Delete` of a key, `Check` is false and `Get` returns nil for this key, and both answer for
  -- every other key as before.
  pub map_get-remove :
      (nil : V) (m : List (K × V)) (k q : K)
      → (map_get same same_value nil (remove same same_value m k) q
          ≡ (if same k q then nil else map_get same same_value nil m q))
        × (map_check same same_value (remove same same_value m k) q
            ≡ (if same k q then false else map_check same same_value m q))
  unfolding map_get map_check
  map_get-remove nil m k q =
      (ground (arith, entry-remove m k q), ground (arith, entry-remove m k q))
