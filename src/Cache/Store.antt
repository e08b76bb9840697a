-- ===== src/Cache/Store.antt =====
-- cache/cache.go. The hash `murmur3.Sum64` is the parameter `hash`. Each operation holds its
-- bucket's lock over its access, so one operation is one step; the counters are 64-bit words.
use wgo.Common.{
  ℕ, zero, suc, ◌+◌, ◌/◌, ◌%◌, ◌^◌, Bool, Option, none, some, List, [], ◌∷◌, map, Bytes, ◌==◌,
  get_or, set, if◌then◌else◌,
}
use wgo.Common.Int.{ℤ}
use wgo.Cache.Bucket.{
  Bucket, CacheError, to_bytes, new_bucket, set_entry, get_entry, ttl_entry, del_entry,
  reset_statistics,
}

pub record Cache (V : Type 0) : Type 0 where
  pub buckets : List (Bucket V)
  pub hit_count : ℕ
  pub miss_count : ℕ

-- `hashVal & 255`
abbrev pub bucket_of : ℕ → ℕ
bucket_of h = h % 256

-- `hashFunc(key)`
abbrev pub hash_of : (Bytes → ℕ) → Option Bytes → ℕ
hash_of hash key = hash (to_bytes key)

module _ {V : Type 0} where
  -- `for i := 0; i < 256; i++ { cache.buckets[i] = newBucket(i) }`
  unfoldable pub new_buckets : ℕ → ℕ → List (Bucket V)
  new_buckets zero i = []
  new_buckets (suc left) i = new_bucket i ∷ new_buckets left (i + 1)

  unfoldable pub new_cache : Cache V
  new_cache = record { buckets = new_buckets 256 0; hit_count = 0; miss_count = 0 }

  abbrev pub bucket : Cache V → ℕ → Bucket V
  bucket c i = get_or c.buckets i (new_bucket i)

  abbrev pub put_bucket : Cache V → ℕ → Bucket V → Cache V
  put_bucket c i b = record c { buckets = set c.buckets i b }

  -- A loop over the 256 buckets that adds one counter up.
  unfoldable pub sum_of : (Bucket V → ℕ) → List (Bucket V) → ℕ
  sum_of f [] = 0
  sum_of f (b ∷ bs) = (f b + sum_of f bs) % 2 ^ 64

  unfoldable pub evacuate_count : Cache V → ℕ
  evacuate_count c = sum_of (λ b. b.total_evacuate) c.buckets

  unfoldable pub expired_count : Cache V → ℕ
  expired_count c = sum_of (λ b. b.total_expired) c.buckets

  unfoldable pub entry_count : Cache V → ℕ
  entry_count c = sum_of (λ b. b.entry_count) c.buckets

  unfoldable pub overwrite_count : Cache V → ℕ
  overwrite_count c = sum_of (λ b. b.overwrites) c.buckets

  unfoldable pub average_access_time : Cache V → ℕ
  average_access_time c =
      let count = sum_of (λ b. b.total_count) c.buckets in
      let total = sum_of (λ b. b.total_time) c.buckets in if count == 0 then 0 else total / count

  unfoldable pub lookup_count : Cache V → ℕ
  lookup_count c = (c.hit_count + c.miss_count) % 2 ^ 64

  unfoldable pub clear : Cache V → Cache V
  clear c = new_cache

  unfoldable pub reset_all : Cache V → Cache V
  reset_all c = record { buckets = map reset_statistics c.buckets; hit_count = 0; miss_count = 0 }

  -- `atomic.AddInt64` on the counter that the error selects
  unfoldable pub count_lookup : Option CacheError → Cache V → Cache V
  count_lookup none c = record c { hit_count = (c.hit_count + 1) % 2 ^ 64 }
  count_lookup (some e) c = record c { miss_count = (c.miss_count + 1) % 2 ^ 64 }

  module _ (hash : Bytes → ℕ) where
    unfoldable pub cache_set :
        ℕ → Cache V → Option Bytes → Option V → ℤ → Cache V × Option CacheError
    cache_set now c key value expire_seconds =
        let h = hash_of hash key in
        let i = bucket_of h in
        let (b, err) = set_entry now (bucket c i) key value h expire_seconds in
        (put_bucket c i b, err)

    unfoldable pub cache_get : ℕ → Cache V → Option Bytes → Cache V × Option V × Option CacheError
    cache_get now c key =
        let h = hash_of hash key in
        let i = bucket_of h in
        let (b, value, err) = get_entry now (bucket c i) key h in
        (count_lookup err (put_bucket c i b), value, err)

    unfoldable pub cache_ttl : Cache V → Option Bytes → ℕ × Option CacheError
    cache_ttl c key = let h = hash_of hash key in ttl_entry (bucket c (bucket_of h)) key h

    unfoldable pub cache_del : Cache V → Option Bytes → Cache V × Bool
    cache_del c key =
        let h = hash_of hash key in
        let i = bucket_of h in
        let (b, affected) = del_entry (bucket c i) key h in (put_bucket c i b, affected)
