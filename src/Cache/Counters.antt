-- ===== src/Cache/Counters.antt =====
-- cache/: the statistics and the places that a run of the cache ever uses.
use wgo.Common.{
  ℕ, zero, suc, ◌+◌, ◌%◌, ◌≡◌, ◌≢◌, refl, ◌<◌, Option, none, some, List, [], ◌∷◌, map, Bytes, arith,
  All, All-set, All-get_or, get_or,
}
use wgo.Common.Int.{ℤ}
use wgo.Cache.Bucket.{CacheError}
use native.Mathlib.Decide.{dec_lt, ℕ_discrete}
use wgo.Cache.Bucket.{
  Bucket, zero_entry, new_bucket, set_entry, get_entry, del_entry, reset_statistics,
}
use wgo.Cache.Direct.{IsDirect-idle, IsDirect-unused}
use wgo.Cache.Store.{
  Cache, new_buckets, new_cache, bucket, clear, reset_all, count_lookup, cache_set, cache_get,
  cache_del, sum_of, evacuate_count, entry_count, overwrite_count, average_access_time,
}
use wgo.Cache.Sound.{new_cache-IsSound}
use wgo.Cache.Runs.{Op, set_op, get_op, del_op, clear_op, reset_op, perform, run, run-IsSound}

module _ {V : Type 0} where
  -- The counters that no operation advances.
  pub record IsQuiet (b : Bucket V) : Type 0 where
    pub entries : b.entry_count ≡ 0
    pub total : b.total_count ≡ 0
    pub time : b.total_time ≡ 0
    pub evacuated : b.total_evacuate ≡ 0
    pub overwritten : b.overwrites ≡ 0

new_bucket-IsQuiet : (V : Type 0) (id : ℕ) → IsQuiet (new_bucket {V = V} id)
unfolding new_bucket
new_bucket-IsQuiet V id = record {
  entries = refl;
  total = refl;
  time = refl;
  evacuated = refl;
  overwritten = refl;
}

new_buckets-IsQuiet : (V : Type 0) (left i : ℕ) → All (IsQuiet {V = V}) (new_buckets left i)
unfolding new_buckets
new_buckets-IsQuiet V zero i = tt
new_buckets-IsQuiet V (suc left) i = (new_bucket-IsQuiet V i, new_buckets-IsQuiet V left (i + 1))

new_cache-IsQuiet : (V : Type 0) → All (IsQuiet {V = V}) (new_cache {V = V}).buckets
unfolding new_cache
new_cache-IsQuiet V = new_buckets-IsQuiet V 256 0

module _ {V : Type 0} where
  set_entry-IsQuiet :
      (now : ℕ) (b : Bucket V) (key : Option Bytes) (v : Option V) (h : ℕ) (ex : ℤ)
      → IsQuiet b
      → IsQuiet (set_entry now b key v h ex).0
  unfolding set_entry
  set_entry-IsQuiet now b key v h ex q = ground arith

  get_entry-IsQuiet :
      (now : ℕ) (b : Bucket V) (key : Option Bytes) (h : ℕ)
      → IsQuiet b
      → IsQuiet (get_entry now b key h).0
  unfolding get_entry
  get_entry-IsQuiet now b key h q = ground arith

  del_entry-IsQuiet :
      (b : Bucket V) (key : Option Bytes) (h : ℕ) → IsQuiet b → IsQuiet (del_entry b key h).0
  unfolding del_entry
  del_entry-IsQuiet b key h q = ground arith

  reset-IsQuiet : (bs : List (Bucket V)) → All IsQuiet bs → All IsQuiet (map reset_statistics bs)
  unfolding reset_statistics
  reset-IsQuiet [] h = tt
  reset-IsQuiet (b ∷ bs) h = (ground arith, reset-IsQuiet bs h.1)

  count_lookup-buckets :
      (err : Option CacheError) (c : Cache V) → (count_lookup err c).buckets ≡ c.buckets
  unfolding count_lookup
  count_lookup-buckets none c = refl
  count_lookup-buckets (some e) c = refl

  sum_of_zero :
      (f : Bucket V → ℕ)
      → ((b : Bucket V) → IsQuiet b → f b ≡ 0)
      → (bs : List (Bucket V)) → All IsQuiet bs
      → sum_of f bs ≡ 0
  unfolding sum_of
  sum_of_zero f z [] h = refl
  sum_of_zero f z (b ∷ bs) h = rw (z b h.0, sum_of_zero f z bs h.1) refl

  module _ (hash : Bytes → ℕ) where
    bucket-IsQuiet : (c : Cache V) (i : ℕ) → All IsQuiet c.buckets → IsQuiet (bucket c i)
    bucket-IsQuiet c i q = All-get_or IsQuiet c.buckets i _ q (new_bucket-IsQuiet V i)

    perform-IsQuiet :
        (op : Op V) (c : Cache V) → All IsQuiet c.buckets → All IsQuiet (perform hash op c).buckets
    unfolding cache_set cache_get cache_del clear reset_all new_cache
    perform-IsQuiet (set_op now key v ex) c q =
        All-set IsQuiet c.buckets _ _ q (set_entry-IsQuiet now _ key v _ ex (bucket-IsQuiet c _ q))
    perform-IsQuiet (get_op now key) c q =
        rw (count_lookup-buckets _ _)
          (All-set IsQuiet c.buckets _ _ q (get_entry-IsQuiet now _ key _ (bucket-IsQuiet c _ q)))
    perform-IsQuiet (del_op key) c q =
        All-set IsQuiet c.buckets _ _ q (del_entry-IsQuiet _ key _ (bucket-IsQuiet c _ q))
    perform-IsQuiet clear_op c q = new_buckets-IsQuiet V 256 0
    perform-IsQuiet reset_op c q = reset-IsQuiet c.buckets q

    run-IsQuiet :
        (ops : List (Op V)) (c : Cache V)
        → All IsQuiet c.buckets
        → All IsQuiet (run hash ops c).buckets
    run-IsQuiet [] c q = q
    run-IsQuiet (op ∷ ops) c q = run-IsQuiet ops (perform hash op c) (perform-IsQuiet op c q)

    -- After any calls on a new cache the entry, evacuation and overwrite counts and the average
    -- access time are all still 0.
    run_counts_zero :
        (ops : List (Op V))
        → (entry_count (run hash ops new_cache) ≡ 0)
          × (evacuate_count (run hash ops new_cache) ≡ 0)
          × (overwrite_count (run hash ops new_cache) ≡ 0)
          × (average_access_time (run hash ops new_cache) ≡ 0)
    unfolding entry_count evacuate_count overwrite_count average_access_time
    run_counts_zero ops =
        let q = run-IsQuiet ops new_cache (new_cache-IsQuiet V) in
        (
          sum_of_zero (λ b. b.entry_count) (λ b h. h.entries) _ q,
          sum_of_zero (λ b. b.total_evacuate) (λ b h. h.evacuated) _ q,
          sum_of_zero (λ b. b.overwrites) (λ b h. h.overwritten) _ q,
          rw (sum_of_zero (λ b. b.total_count) (λ b h. h.total) _ q) refl,
        )

    -- After any calls on a new cache, a bucket stores an entry only in the last place of one of
    -- its first sixteen slots of eight: in at most 16 of its 256 places.
    pub run_places :
        (ops : List (Op V)) (i j : ℕ)
        → i < 256
        → j < 256
        → get_or (bucket (run hash ops new_cache) i).slots j zero_entry ≢ zero_entry
        → (j % 8 ≡ 7) × (j < 128)
    run_places ops i j hi hj stored =
        let d = (run-IsSound hash ops new_cache new_cache-IsSound).direct i hi in
        elim (dec_lt j 128) [
          | no above ↦ absurd (stored (IsDirect-unused _ j d (omega arith) hj))
          | yes below ↦ elim (ℕ_discrete (j % 8) 7) [
            | yes last ↦ (last, below)
            | no other ↦ absurd (stored (IsDirect-idle _ j d other below))
          ]
        ]
