-- ===== src/Cache/Removal.antt =====
-- cache/: deleting, and the calls that answer without looking.
use wgo.Common.{
  eq_of_==, ◌≢◌, ◌<◌, bytes_eq_iff, bytes_eq_of_ne, ℕ, ◌+◌, ◌%◌, ◌^◌, ◌≡◌, refl, sym, ◌∙◌, true,
  false, Option, none, some, Bytes, ◌==◌, ==_refl, arith, Bool-cases, inl, inr, if◌then◌else◌,
}
use mathlib.Core.Bool.{and-eq-true_iff}
use mathlib.Core.Path.{ap₂}
use wgo.Cache.Bucket.{
  key_matches, Entry, CacheError, err_not_found, zero_entry, slot_of, del_entry, ttl_entry,
}
use wgo.Cache.Direct.{cell}
use wgo.Cache.Refine.{is_large, slot_of-lt, del_entry-write, holds}
use wgo.Cache.Store.{
  Cache, bucket, bucket_of, hash_of, cache_get, cache_ttl, cache_del, count_lookup, lookup_count,
  put_bucket,
}
use wgo.Cache.Sound.{IsSound, bucket_of-lt, bucket-put_bucket}
use wgo.Cache.Runs.{del_op, perform-IsSound}
use wgo.Cache.Laws.{
  answer, answer-zero_entry, collide, home, result, result-answer, cell-put_bucket,
}

module _ {V : Type 0} where
  cell-put_bucket_same :
      (c : Cache V) (i j t : ℕ)
      → IsSound c
      → i < 256
      → cell (bucket (put_bucket c i (bucket c i)) j) t ≡ cell (bucket c j) t
  cell-put_bucket_same c i j t s h =
      rw (bucket-put_bucket c i j (bucket c i) s.sized h) (elim (Bool-cases (i == j)) [
        | inl same ↦ rw same (rw (← eq_of_== i j same) refl)
        | inr other ↦ rw other refl
      ])

  lookup_count-count_lookup :
      (err : Option CacheError) (c : Cache V)
      → lookup_count (count_lookup err c) ≡ (lookup_count c + 1) % 2 ^ 64
  unfolding lookup_count count_lookup
  lookup_count-count_lookup none c = omega arith
  lookup_count-count_lookup (some e) c = omega arith

  answer_missed :
      (now : ℕ) (e : Entry V) (h : ℕ) (key : Option Bytes)
      → holds e h key ≡ false
      → answer now e h key ≡ (none, some err_not_found)
  unfolding answer
  answer_missed now e h key missed = rw missed refl

  -- A cell holds one key.
  holds_apart :
      (e : Entry V) (h h' : ℕ) (k k' : Bytes)
      → k ≢ k'
      → holds e h (some k) ≡ true
      → holds e h' (some k') ≡ false
  unfolding key_matches
  holds_apart e h h' k k' ne found = ground (arith, bytes_eq_iff k k', ha e.key)
    where
      ha : (o : Option Bytes) → key_matches o (some k) ≡ true → key_matches o (some k') ≡ false
      ha none e = cc
      ha (some j) e = let same : j ≡ k = (bytes_eq_iff j k).0 e in rw same (bytes_eq_of_ne k k' ne)

module _ {V : Type 0} (hash : Bytes → ℕ) where
  home-cache_del :
      (c : Cache V) (k k' : Option Bytes)
      → IsSound c
      → is_large k ≡ false
      → holds (home hash c k) (hash_of hash k) k ≡ true
      → home hash (cache_del hash c k).0 k'
        ≡ (if collide hash k k' then zero_entry else home hash c k')
  unfolding cache_del
  home-cache_del c k k' s small found =
      rw (del_entry-write _ k (hash_of hash k) (s.direct _ (bucket_of-lt hash k)) small) (
        rw found
          (cell-put_bucket c _ _ _ _ _ s (bucket_of-lt hash k) (slot_of-lt (hash_of hash k))))

  home-cache_del_missed :
      (c : Cache V) (k k' : Option Bytes)
      → IsSound c
      → is_large k ≡ false
      → holds (home hash c k) (hash_of hash k) k ≡ false
      → home hash (cache_del hash c k).0 k' ≡ home hash c k'
  unfolding cache_del
  home-cache_del_missed c k k' s small missed =
      rw (del_entry-write _ k (hash_of hash k) (s.direct _ (bucket_of-lt hash k)) small)
        (rw missed (cell-put_bucket_same c _ _ _ s (bucket_of-lt hash k)))

  -- `Del` answers false whether or not it removed the key.
  pub cache_del-flag : (c : Cache V) (k : Option Bytes) → (cache_del hash c k).1 ≡ false
  unfolding cache_del del_entry
  cache_del-flag c k = ground arith

  home-collide :
      (c : Cache V) (k k' : Option Bytes)
      → collide hash k k' ≡ true
      → home hash c k ≡ home hash c k'
  home-collide c k k' same =
      let (eb, es) = (and-eq-true_iff _ _).0 same in
      ap₂ (λ i t. cell (bucket c i) t) (eq_of_== _ _ eb) (eq_of_== _ _ es)

  -- On a sound cache, after `Del` with a key of at most 65535 bytes, `Get` of the key returns not
  -- found.
  pub get-del :
      (now : ℕ) (c : Cache V) (k : Option Bytes)
      → IsSound c
      → is_large k ≡ false
      → result hash now (cache_del hash c k).0 k ≡ (none, some err_not_found)
  get-del now c k s small =
      let s' = perform-IsSound hash (del_op k) c s in
      result-answer hash now _ k s' small
      ∙ (elim (Bool-cases (holds (home hash c k) (hash_of hash k) k)) [
        | inl found ↦ rw (home-cache_del c k k s small found) (
            rw (==_refl (bucket_of (hash_of hash k)), ==_refl (slot_of (hash_of hash k)))
              (answer-zero_entry now (hash_of hash k) k))
        | inr missed ↦
            rw (home-cache_del_missed c k k s small missed)
              (answer_missed now (home hash c k) (hash_of hash k) k missed)
      ])

  -- On a sound cache, `Del` leaves the answer for every other key as it was, for keys of at most
  -- 65535 bytes.
  pub get-del_other :
      (now : ℕ) (c : Cache V) (k k' : Bytes)
      → IsSound c
      → is_large (some k) ≡ false
      → is_large (some k') ≡ false
      → k ≢ k'
      → result hash now (cache_del hash c (some k)).0 (some k') ≡ result hash now c (some k')
  get-del_other now c k k' s small small' ne =
      let s' = perform-IsSound hash (del_op (some k)) c s in
      result-answer hash now _ (some k') s' small'
      ∙ (elim (Bool-cases (holds (home hash c (some k)) (hash k) (some k))) [
        | inl found ↦
            rw (home-cache_del c (some k) (some k') s small found)
              (elim (Bool-cases (collide hash (some k) (some k'))) [
                | inl same ↦ rw same (
                    answer-zero_entry now (hash k') (some k')
                    ∙ sym (
                        answer_missed now _ (hash k') (some k') (
                          rw (← home-collide c (some k) (some k') same)
                            (holds_apart (home hash c (some k)) (hash k) (hash k') k k' ne found))))
                | inr apart ↦ rw apart refl
              ])
        | inr missed ↦ rw (home-cache_del_missed c (some k) (some k') s small missed) refl
      ])
      ∙ sym (result-answer hash now c (some k') s small')

  -- `TTL` answers zero and no error, whatever is stored.
  pub cache_ttl_zero : (c : Cache V) (k : Option Bytes) → cache_ttl hash c k ≡ (0, none)
  unfolding cache_ttl ttl_entry
  cache_ttl_zero c k = refl

  -- Every `Get` adds one to the number of lookups, modulo 2^64.
  pub lookup_count-cache_get :
      (now : ℕ) (c : Cache V) (k : Option Bytes)
      → lookup_count (cache_get hash now c k).0 ≡ (lookup_count c + 1) % 2 ^ 64
  unfolding cache_get lookup_count
  lookup_count-cache_get now c k = lookup_count-count_lookup _ _
