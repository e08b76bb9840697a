-- ===== src/Cache/Stored.antt =====
-- cache/: what the entries of a cache hold, and what `Get` answers of them.
use wgo.Common.{
  ℕ, zero, suc, ◌+◌, ◌<◌, ◌≡◌, refl, sym, ap, ◌∙◌, ◌*◌, arith, true, ◌&&◌, Option, none, some,
  Bytes, bytes_eq_iff, ◌==◌, Bool-cases, inl, inr, get_or, get_or-replicate, eq_of_==, replicate,
}
use mathlib.Core.Bool.{and-eq-true_iff}
use wgo.Common.Int.{ℤ}
use wgo.Cache.Bucket.{
  Bucket, Entry, CacheError, zero_entry, new_bucket, slot_of, key_matches, set_entry, get_entry,
  is_expired, err_not_found, err_large_key,
}
use wgo.Cache.Direct.{cell}
use wgo.Cache.Refine.{is_large, slot_of-lt, set_entry-write, holds, new_entry}
use wgo.Cache.Store.{
  Cache, new_buckets, new_cache, bucket, put_bucket, bucket_of, hash_of, cache_set, cache_get,
  count_lookup,
}
use wgo.Cache.Sound.{IsSound, bucket_of-lt, bucket-put_bucket}
use wgo.Cache.Laws.{cell-put_bucket, result-answer, answer, home}

key_matches-some : (key : Option Bytes) (k : Bytes) → key_matches key (some k) ≡ true → key ≡ some k
unfolding key_matches
key_matches-some none k m = ground arith
key_matches-some (some k') k m = ap some ((bytes_eq_iff k' k).0 m)

module _ {V : Type 0} where
  new_buckets-slots :
      (left i j d : ℕ)
      → (get_or (new_buckets {V = V} left i) j (new_bucket d)).slots ≡ replicate 256 zero_entry
  unfolding new_buckets
  new_buckets-slots zero i j d = unfold new_bucket in refl
  new_buckets-slots (suc left) i zero d = unfold new_bucket in refl
  new_buckets-slots (suc left) i (suc j) d = new_buckets-slots left (i + 1) j d

  cell-put_bucket_slots :
      (c : Cache V) (i j t : ℕ) (b : Bucket V)
      → IsSound c
      → i < 256
      → b.slots ≡ (bucket c i).slots
      → cell (bucket (put_bucket c i b) j) t ≡ cell (bucket c j) t
  cell-put_bucket_slots c i j t b s h e =
      rw (bucket-put_bucket c i j b s.sized h) (elim (Bool-cases (i == j)) [
        | inl same ↦
            rw same (rw (← eq_of_== i j same) (ap (λ l. get_or l (t * 8 + 7) zero_entry) e))
        | inr other ↦ rw other refl
      ])

  get_entry-slots :
      (now : ℕ) (b : Bucket V) (key : Option Bytes) (hash : ℕ)
      → (get_entry now b key hash).0.slots ≡ b.slots
  unfolding get_entry
  get_entry-slots now b key hash = ground arith

  cell-count_lookup :
      (e : Option CacheError) (c : Cache V) (j t : ℕ)
      → cell (bucket (count_lookup e c) j) t ≡ cell (bucket c j) t
  unfolding count_lookup
  cell-count_lookup none c j t = refl
  cell-count_lookup (some e) c j t = refl

  module _ (hash : Bytes → ℕ) where
    cell-cache_get :
        (now : ℕ) (c : Cache V) (k : Option Bytes) (j t : ℕ)
        → IsSound c
        → cell (bucket (cache_get hash now c k).0 j) t ≡ cell (bucket c j) t
    unfolding cache_get
    cell-cache_get now c k j t s =
        cell-count_lookup _ _ j t
        ∙ cell-put_bucket_slots c _ j t _ s (bucket_of-lt hash k)
            (get_entry-slots now _ k (hash_of hash k))

    -- A hit is the value of an entry with the key.
    answer-found :
        (now : ℕ) (e : Entry V) (h : ℕ) (k : Bytes) (v : Option V)
        → answer now e h (some k) ≡ (v, none)
        → (e.key ≡ some k) × (v ≡ e.value)
    unfolding answer
    answer-found now e h k v found = elim (Bool-cases (holds e h (some k))) [
      | inr missed ↦
          let is : answer now e h (some k) ≡ (none, some err_not_found) = rw missed refl in
          absurd (missed_apart (ap (λ p. p.1) (sym found ∙ is)))
      | inl held ↦ elim (Bool-cases (is_expired now e)) [
        | inl late ↦
            let is : answer now e h (some k) ≡ (none, some err_not_found) = rw (held, late) refl in
            absurd (missed_apart (ap (λ p. p.1) (sym found ∙ is)))
        | inr fresh ↦
            let is : answer now e h (some k) ≡ (e.value, none) = rw (held, fresh) refl in
            (
              key_matches-some e.key k ((and-eq-true_iff _ _).0 held).1,
              ap (λ p. p.0) (sym found ∙ is),
            )
      ]
    ]
      where
        missed_apart : ◌≡◌ {A = Option CacheError} none (some err_not_found) → ⊥
        missed_apart e = ground arith

    module _ (P : Bytes → Option V → Type 0) where
      -- `P` holds of each entry's key and value.
      abbrev pub Stored : Cache V → Type 0
      Stored c =
          (j t : ℕ) (k : Bytes)
          → (cell (bucket c j) t).key ≡ some k
          → P k (cell (bucket c j) t).value

      pub new_cache-Stored : Stored new_cache
      unfolding new_cache
      new_cache-Stored j t k e = absurd (
          none_apart (
            sym (
              ap (λ l. (get_or l (t * 8 + 7) zero_entry).key) (new_buckets-slots 256 0 j j)
              ∙ ap (λ x. x.key) (get_or-replicate 256 (t * 8 + 7) zero_entry))
            ∙ e))
        where
          none_apart : ◌≡◌ {A = Option Bytes} none (some k) → ⊥
          none_apart e = ground arith

      pub cache_get-Stored :
          (now : ℕ) (c : Cache V) (k : Option Bytes)
          → IsSound c
          → Stored c
          → Stored (cache_get hash now c k).0
      cache_get-Stored now c k s st j t k' = rw (cell-cache_get now c k j t s) (st j t k')

      pub cache_set-Stored :
          (now : ℕ) (c : Cache V) (k : Bytes) (v : Option V) (ex : ℤ)
          → IsSound c
          → Stored c
          → P k v
          → Stored (cache_set hash now c (some k) v ex).0
      unfolding cache_set
      cache_set-Stored now c k v ex s st p j t k' = elim (Bool-cases (is_large (some k))) [
        | inl large ↦
            unfold set_entry in
            rw large (
              rw
                (cell-put_bucket_slots c (bucket_of (hash k)) j t (bucket c (bucket_of (hash k))) s
                  (bucket_of-lt hash (some k)) refl)
                (st j t k'))
        | inr small ↦
            rw
              (set_entry-write now _ (some k) v (hash k) ex
                (s.direct _ (bucket_of-lt hash (some k))) small)
              (rw
                (cell-put_bucket c _ j _ t (new_entry now (some k) v (hash k) ex) s
                  (bucket_of-lt hash (some k)) (slot_of-lt (hash k)))
                (elim (Bool-cases (bucket_of (hash k) == j && slot_of (hash k) == t)) [
                  | inl same ↦ rw same λ e. ap_key (some_eq e)
                  | inr other ↦ rw other (st j t k')
                ]))
      ]
        where
          ap_key : k ≡ k' → P k' v
          ap_key e = rw (← e) p

          some_eq : ◌≡◌ {A = Option Bytes} (some k) (some k') → k ≡ k'
          some_eq e = ground arith

      pub hit-Stored :
          (now : ℕ) (c : Cache V) (k : Bytes)
          → IsSound c
          → Stored c
          → (cache_get hash now c (some k)).2 ≡ none
          → P k (cache_get hash now c (some k)).1
      hit-Stored now c k s st hit = elim (Bool-cases (is_large (some k))) [
        | inl large ↦ absurd (large_fails (unfold cache_get get_entry in rw large refl) hit)
        | inr small ↦
            let (held, same) =
              answer-found now (home hash c (some k)) (hash k) k (cache_get hash now c (some k)).1 (
                sym (result-answer hash now c (some k) s small)
                ∙ ap (λ e. ((cache_get hash now c (some k)).1, e)) hit) in
            rw same (st _ _ k held)
      ]
        where
          large_fails :
              (cache_get hash now c (some k)).2 ≡ some err_large_key
              → (cache_get hash now c (some k)).2 ≡ none
              → ⊥
          large_fails e h = ground arith
