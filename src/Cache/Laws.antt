-- ===== src/Cache/Laws.antt =====
-- cache/: what `Get` answers after `Set` and `Del`.
use wgo.Common.{
  eq_of_==, and_false, bytes_eq_of_ne, ℕ, ◌≡◌, ◌≢◌, refl, sym, ◌∙◌, ◌<◌, Bool, true, false, ◌&&◌,
  Option, none, some, Bytes, ◌==◌, ==_refl, Bool-cases, inl, inr, if◌then◌else◌, bytes_eq_refl,
}
use wgo.Common.Int.{ℤ}
use wgo.Cache.Bucket.{
  Bucket, Entry, CacheError, err_not_found, zero_entry, slot_of, hash16_of, get_entry, is_expired,
  key_matches,
}
use wgo.Cache.Direct.{cell, IsDirect, write, cell-write}
use wgo.Cache.Refine.{
  is_large, slot_of-lt, set_entry-write, get_entry-read_cell, read_cell, new_entry, holds,
}
use wgo.Cache.Store.{Cache, bucket, put_bucket, bucket_of, hash_of, cache_set, cache_get}
use wgo.Cache.Runs.{set_op, perform-IsSound}
use wgo.Cache.Sound.{IsSound, bucket_of-lt, bucket-put_bucket}

-- The keys' hashes select the same bucket and the same slot.
abbrev pub collide : (Bytes → ℕ) → Option Bytes → Option Bytes → Bool
collide hash k k' =
    bucket_of (hash_of hash k) == bucket_of (hash_of hash k')
    && slot_of (hash_of hash k) == slot_of (hash_of hash k')

module _ {V : Type 0} where
  -- What `Get` answers when the cell of the key's hash is `e`.
  unfoldable pub answer : ℕ → Entry V → ℕ → Option Bytes → Option V × Option CacheError
  answer now e h key =
      if holds e h key
      then (if is_expired now e then (none, some err_not_found) else (e.value, none))
      else (none, some err_not_found)

  read_cell-answer :
      (now : ℕ) (b : Bucket V) (key : Option Bytes) (h : ℕ)
      → ◌≡◌ {A = Option V × Option CacheError}
          ((read_cell now b key h).1, (read_cell now b key h).2)
          (answer now (cell b (slot_of h)) h key)
  unfolding answer read_cell
  read_cell-answer now b key h = elim (Bool-cases (holds (cell b (slot_of h)) h key)) [
    | inr missed ↦ rw missed refl
    | inl found ↦ elim (Bool-cases (is_expired now (cell b (slot_of h)))) [
      | inl late ↦ rw (found, late) refl
      | inr fresh ↦ rw (found, fresh) refl
    ]
  ]

  get_entry-answer :
      (now : ℕ) (b : Bucket V) (key : Option Bytes) (h : ℕ)
      → IsDirect b
      → is_large key ≡ false
      → ◌≡◌ {A = Option V × Option CacheError}
          ((get_entry now b key h).1, (get_entry now b key h).2)
          (answer now (cell b (slot_of h)) h key)
  get_entry-answer now b key h d small =
      rw (get_entry-read_cell now b key h d small) (read_cell-answer now b key h)

  pub cell-put_bucket :
      (c : Cache V) (i j s t : ℕ) (e : Entry V)
      → IsSound c
      → i < 256
      → s < 16
      → cell (bucket (put_bucket c i (write (bucket c i) s e)) j) t
        ≡ (if i == j && s == t then e else cell (bucket c j) t)
  cell-put_bucket c i j s t e sound hi hs =
      rw (bucket-put_bucket c i j (write (bucket c i) s e) sound.sized hi)
        (elim (Bool-cases (i == j)) [
          | inl same ↦
              rw same
                (rw (← eq_of_== i j same) (cell-write (bucket c i) s t e (sound.direct i hi) hs))
          | inr other ↦ rw other refl
        ])

  -- An answer from a cell just written.
  answer-new_entry :
      (now now' h : ℕ) (k : Bytes) (v : Option V) (ex : ℤ)
      → answer now' (new_entry now (some k) v h ex) h (some k) ≡ (
          if is_expired now' (new_entry now (some k) v h ex)
          then (none, some err_not_found)
          else (v, none))
  unfolding answer key_matches
  answer-new_entry now now' h k v ex = rw (==_refl (hash16_of h), bytes_eq_refl k) refl

  answer-new_entry_ne :
      (now now' h h' : ℕ) (k k' : Bytes) (v : Option V) (ex : ℤ)
      → k ≢ k'
      → answer now' (new_entry now (some k) v h ex) h' (some k') ≡ (none, some err_not_found)
  unfolding answer key_matches
  answer-new_entry_ne now now' h h' k k' v ex ne = rw (bytes_eq_of_ne k k' ne, and_false) refl

  pub answer-zero_entry :
      (now h : ℕ) (key : Option Bytes) → answer now zero_entry h key ≡ (none, some err_not_found)
  unfolding answer key_matches
  answer-zero_entry now h key = rw (and_false) refl

  module _ (hash : Bytes → ℕ) where
    -- The cell that the key's hash selects.
    abbrev pub home : Cache V → Option Bytes → Entry V
    home c key = cell (bucket c (bucket_of (hash_of hash key))) (slot_of (hash_of hash key))

    -- The value and the error of `Get`.
    abbrev pub result : ℕ → Cache V → Option Bytes → Option V × Option CacheError
    result now c key = ((cache_get hash now c key).1, (cache_get hash now c key).2)

    pub result-answer :
        (now : ℕ) (c : Cache V) (key : Option Bytes)
        → IsSound c
        → is_large key ≡ false
        → result now c key ≡ answer now (home c key) (hash_of hash key) key
    unfolding cache_get
    result-answer now c key s small =
        get_entry-answer now _ key (hash_of hash key) (s.direct _ (bucket_of-lt hash key)) small

    pub home-cache_set :
        (now : ℕ) (c : Cache V) (k k' : Option Bytes) (v : Option V) (ex : ℤ)
        → IsSound c
        → is_large k ≡ false
        → home (cache_set hash now c k v ex).0 k'
          ≡ (if collide hash k k' then new_entry now k v (hash_of hash k) ex else home c k')
    unfolding cache_set
    home-cache_set now c k k' v ex s small =
        rw (set_entry-write now _ k v (hash_of hash k) ex (s.direct _ (bucket_of-lt hash k)) small)
          (cell-put_bucket c _ _ _ _ _ s (bucket_of-lt hash k) (slot_of-lt (hash_of hash k)))

    -- On a sound cache, after a `Set` with a key of at most 65535 bytes, `Get` of the same key
    -- returns the stored value and no error, unless the stored expiry is over: then it returns not
    -- found.
    pub get-set :
        (now now' : ℕ) (c : Cache V) (k : Bytes) (v : Option V) (ex : ℤ)
        → IsSound c
        → is_large (some k) ≡ false
        → result now' (cache_set hash now c (some k) v ex).0 (some k) ≡ (
            if is_expired now' (new_entry now (some k) v (hash k) ex)
            then (none, some err_not_found)
            else (v, none))
    get-set now now' c k v ex s small =
        let s' = perform-IsSound hash (set_op now (some k) v ex) c s in
        result-answer now' _ (some k) s' small
        ∙ (rw (home-cache_set now c (some k) (some k) v ex s small) (
            rw (==_refl (bucket_of (hash k)), ==_refl (slot_of (hash k)))
              (answer-new_entry now now' (hash k) k v ex)))

    get-set_evicts :
        (now now' : ℕ) (c : Cache V) (k k' : Bytes) (v : Option V) (ex : ℤ)
        → IsSound c
        → is_large (some k) ≡ false
        → is_large (some k') ≡ false
        → k ≢ k'
        → collide hash (some k) (some k') ≡ true
        → result now' (cache_set hash now c (some k) v ex).0 (some k') ≡ (none, some err_not_found)
    get-set_evicts now now' c k k' v ex s small small' ne same =
        let s' = perform-IsSound hash (set_op now (some k) v ex) c s in
        result-answer now' _ (some k') s' small'
        ∙ (rw (home-cache_set now c (some k) (some k') v ex s small)
            (rw same (answer-new_entry_ne now now' (hash k) (hash k') k k' v ex ne)))

    get-set_other :
        (now now' : ℕ) (c : Cache V) (k k' : Option Bytes) (v : Option V) (ex : ℤ)
        → IsSound c
        → is_large k ≡ false
        → is_large k' ≡ false
        → collide hash k k' ≡ false
        → result now' (cache_set hash now c k v ex).0 k' ≡ result now' c k'
    get-set_other now now' c k k' v ex s small small' apart =
        let s' = perform-IsSound hash (set_op now k v ex) c s in
        result-answer now' _ k' s' small'
        ∙ (rw (home-cache_set now c k k' v ex s small)
            (rw apart (sym (result-answer now' c k' s small'))))

    -- On a sound cache, for keys of at most 65535 bytes, a `Set` of one key makes another key with
    -- the same bucket and slot not found, and leaves the answer for each key of another bucket or
    -- slot as it was.
    pub get-set_ne :
        (now now' : ℕ) (c : Cache V) (k k' : Bytes) (v : Option V) (ex : ℤ)
        → IsSound c
        → is_large (some k) ≡ false
        → is_large (some k') ≡ false
        → k ≢ k'
        → result now' (cache_set hash now c (some k) v ex).0 (some k') ≡ (
            if collide hash (some k) (some k')
            then (none, some err_not_found)
            else result now' c (some k'))
    get-set_ne now now' c k k' v ex s small small' ne =
        elim (Bool-cases (collide hash (some k) (some k'))) [
          | inl same ↦ rw same (get-set_evicts now now' c k k' v ex s small small' ne same)
          | inr apart ↦
              rw apart (get-set_other now now' c (some k) (some k') v ex s small small' apart)
        ]
