-- ===== src/Cache/Sound.antt =====
-- cache/: every operation keeps each bucket an array of sixteen cells.
use wgo.Common.{
  ℕ, zero, suc, ◌+◌, ◌≡◌, refl, ap, ◌∙◌, ◌<◌, Option, none, some, List, [], ◌∷◌, map, Bytes, ◌==◌,
  arith, Bool-cases, inl, inr, length, get_or, length-map, length-set, get_or-set_self,
  get_or-set_ne, eq_of_==, ne_of_==, if◌then◌else◌,
}
use wgo.Common.Int.{ℤ}
use wgo.Cache.Bucket.{
  Bucket, CacheError, new_bucket, set_entry, get_entry, del_entry, reset_statistics, zero_entry,
  slot_of,
}
use wgo.Cache.Direct.{IsDirect, write-IsDirect, new_bucket-IsDirect, cell}
use wgo.Cache.Refine.{
  is_large, slot_of-lt, set_entry-write, get_entry-read_cell, read_cell, del_entry-write, holds,
}
use wgo.Cache.Store.{
  Cache, new_buckets, new_cache, bucket, put_bucket, bucket_of, reset_all, count_lookup, hash_of,
}

new_buckets-sized : (V : Type 0) (left i : ℕ) → length {A = Bucket V} (new_buckets left i) ≡ left
unfolding new_buckets
new_buckets-sized V zero i = refl
new_buckets-sized V (suc left) i = ap suc (new_buckets-sized V left (i + 1))

pub bucket_of-lt : (hash : Bytes → ℕ) (key : Option Bytes) → bucket_of (hash_of hash key) < 256
bucket_of-lt hash key = omega arith

module _ {V : Type 0} where
  pub record IsSound (c : Cache V) : Type 0 where
    pub sized : length c.buckets ≡ 256
    pub direct : (i : ℕ) → i < 256 → IsDirect (bucket c i)

  -- `set` keeps a bucket direct, with a refused key too.
  pub set_entry-IsDirect :
      (now : ℕ) (b : Bucket V) (key : Option Bytes) (value : Option V) (hash : ℕ) (ex : ℤ)
      → IsDirect b
      → IsDirect (set_entry now b key value hash ex).0
  set_entry-IsDirect now b key value hash ex d = elim (Bool-cases (is_large key)) [
    | inl large ↦ unfold set_entry in rw large d
    | inr small ↦
        rw (set_entry-write now b key value hash ex d small)
          (write-IsDirect b (slot_of hash) _ d (slot_of-lt hash))
  ]

  read_cell-slots :
      (now : ℕ) (b : Bucket V) (key : Option Bytes) (hash : ℕ)
      → (read_cell now b key hash).0.slots ≡ b.slots
  unfolding read_cell
  read_cell-slots now b key hash = ground arith

  IsDirect-slots : (b b' : Bucket V) → b'.slots ≡ b.slots → IsDirect b → IsDirect b'
  IsDirect-slots b b' e d = record {
    sized = rw e d.sized;
    direct = λ s h. rw e (d.direct s h);
    unused = rw e d.unused;
  }

  pub get_entry-IsDirect :
      (now : ℕ) (b : Bucket V) (key : Option Bytes) (hash : ℕ)
      → IsDirect b
      → IsDirect (get_entry now b key hash).0
  get_entry-IsDirect now b key hash d = elim (Bool-cases (is_large key)) [
    | inl large ↦ unfold get_entry in rw large d
    | inr small ↦
        rw (get_entry-read_cell now b key hash d small)
          (IsDirect-slots b _ (read_cell-slots now b key hash) d)
  ]

  pub del_entry-IsDirect :
      (b : Bucket V) (key : Option Bytes) (hash : ℕ)
      → IsDirect b
      → IsDirect (del_entry b key hash).0
  del_entry-IsDirect b key hash d = elim (Bool-cases (is_large key)) [
    | inl large ↦ unfold del_entry in rw large d
    | inr small ↦
        rw (del_entry-write b key hash d small)
          (elim (Bool-cases (holds (cell b (slot_of hash)) hash key)) [
            | inl found ↦ rw found (write-IsDirect b (slot_of hash) zero_entry d (slot_of-lt hash))
            | inr missed ↦ rw missed d
          ])
  ]

  pub bucket-put_bucket :
      (c : Cache V) (i j : ℕ) (b : Bucket V)
      → length c.buckets ≡ 256
      → i < 256
      → bucket (put_bucket c i b) j ≡ (if i == j then b else bucket c j)
  bucket-put_bucket c i j b sized h = elim (Bool-cases (i == j)) [
    | inl same ↦
        rw same
          (rw (← eq_of_== i j same) (get_or-set_self c.buckets i b (new_bucket i) (omega arith)))
    | inr other ↦ rw other (get_or-set_ne c.buckets i j b (new_bucket j) (ne_of_== i j other))
  ]

  pub put_bucket-IsSound :
      (c : Cache V) (i : ℕ) (b : Bucket V)
      → IsSound c
      → i < 256
      → IsDirect b
      → IsSound (put_bucket c i b)
  put_bucket-IsSound c i b s h d = record {
    sized = length-set c.buckets i b ∙ s.sized;
    direct = λ j k.
        rw (bucket-put_bucket c i j b s.sized h) (elim (Bool-cases (i == j)) [
          | inl same ↦ rw same d
          | inr other ↦ rw other (s.direct j k)
        ]);
  }

  new_buckets-IsDirect :
      (left i j : ℕ) (d : Bucket V) → IsDirect d → IsDirect (get_or (new_buckets left i) j d)
  unfolding new_buckets
  new_buckets-IsDirect zero i j d h = h
  new_buckets-IsDirect (suc left) i zero d h = new_bucket-IsDirect i
  new_buckets-IsDirect (suc left) i (suc j) d h = new_buckets-IsDirect left (i + 1) j d h

  pub new_cache-IsSound : IsSound (new_cache {V = V})
  unfolding new_cache
  new_cache-IsSound = record {
    sized = new_buckets-sized V 256 0;
    direct = λ i h. new_buckets-IsDirect 256 0 i _ (new_bucket-IsDirect i);
  }

  pub count_lookup-IsSound :
      (err : Option CacheError) (c : Cache V) → IsSound c → IsSound (count_lookup err c)
  unfolding count_lookup
  count_lookup-IsSound none c s = record { sized = s.sized; direct = s.direct }
  count_lookup-IsSound (some e) c s = record { sized = s.sized; direct = s.direct }

  map-reset_statistics-IsDirect :
      (bs : List (Bucket V)) (i : ℕ) (d d' : Bucket V)
      → IsDirect d'
      → IsDirect (get_or bs i d)
      → IsDirect (get_or (map reset_statistics bs) i d')
  unfolding reset_statistics
  map-reset_statistics-IsDirect [] i d d' h k = h
  map-reset_statistics-IsDirect (b ∷ bs) zero d d' h k = record {
    sized = k.sized;
    direct = k.direct;
    unused = k.unused;
  }
  map-reset_statistics-IsDirect (b ∷ bs) (suc i) d d' h k =
      map-reset_statistics-IsDirect bs i d d' h k

  pub reset_all-IsSound : (c : Cache V) → IsSound c → IsSound (reset_all c)
  unfolding reset_all
  reset_all-IsSound c s = record {
    sized = length-map c.buckets reset_statistics ∙ s.sized;
    direct =
        λ i h. map-reset_statistics-IsDirect c.buckets i _ _ (new_bucket-IsDirect i) (s.direct i h);
  }
