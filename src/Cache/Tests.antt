-- ===== src/Cache/Tests.antt =====
-- cache/: runs of the cache, and the theorems at concrete caches.
use wgo.Common.{
  bytes_eq, ℕ, ◌≡◌, ◌≢◌, ◌<◌, ◌%◌, refl, ap, Option, none, some, List, [], ◌∷◌, Bytes, bytes,
  length, arith, get_or,
}
use wgo.Common.Int.{pos}
use wgo.Cache.Bucket.{
  zero_entry, err_not_found, expiry, key_matches, new_bucket, search_idx, entry_idx, scan, lookup,
  set_entry, get_entry, del_entry, reset_statistics,
}
use wgo.Cache.Store.{
  Cache, bucket, new_buckets, new_cache, sum_of, lookup_count, cache_set, cache_get, cache_del,
  count_lookup, clear, reset_all,
}
use wgo.Cache.Sound.{new_cache-IsSound}
use wgo.Cache.Runs.{Op, set_op, run, run-IsSound}
use wgo.Cache.Laws.{result, get-set, get-set_ne, collide}
use wgo.Cache.Refine.{new_entry}
use wgo.Cache.Bucket.{is_expired}
use wgo.Cache.Removal.{get-del}
use wgo.Cache.Counters.{run_places}
use wgo.Common.{if◌then◌else◌}

program : Unit {0}
unfolding expiry key_matches new_bucket search_idx entry_idx scan lookup set_entry get_entry
    del_entry reset_statistics new_buckets new_cache sum_of lookup_count cache_set cache_get
    cache_del count_lookup clear reset_all
program = tt

-- A hash that puts keys of different lengths into different buckets.
abbrev by_length : Bytes → ℕ
by_length k = length k

abbrev one_key : List (Op ℕ)
one_key = set_op 10 (some (bytes "a")) (some 5) (pos 0) ∷ []

abbrev stored_cache : Cache ℕ
stored_cache = run by_length one_key new_cache

b_ne_a : bytes "b" ≢ bytes "a"
b_ne_a e = let h : b'b' ≡ b'a' = ap (λ x. get_or x 0 0) e in omega (arith, h)

get_stored : result by_length 11 stored_cache (some (bytes "a")) ≡ (some 5, none)
unfolding program bytes_eq
get_stored = refl

get-set_example :
    result by_length 12
      (cache_set by_length 11 stored_cache (some (bytes "b")) (some 6) (pos 3)).0
      (some (bytes "b"))
    ≡ (if is_expired {V = ℕ} 12
          (new_entry 11 (some (bytes "b")) (some 6) (by_length (bytes "b")) (pos 3))
        then (none, some err_not_found)
        else (some 6, none))
get-set_example =
    get-set by_length 11 12 stored_cache (bytes "b") (some 6) (pos 3)
      (run-IsSound by_length one_key new_cache new_cache-IsSound) refl

get-set_ne_example :
    result by_length 12
      (cache_set by_length 11 stored_cache (some (bytes "b")) (some 6) (pos 3)).0
      (some (bytes "a"))
    ≡ (if collide by_length (some (bytes "b")) (some (bytes "a"))
        then (none, some err_not_found)
        else result by_length 12 stored_cache (some (bytes "a")))
get-set_ne_example =
    get-set_ne by_length 11 12 stored_cache (bytes "b") (bytes "a") (some 6) (pos 3)
      (run-IsSound by_length one_key new_cache new_cache-IsSound) refl refl b_ne_a

get-del_example :
    result by_length 12 (cache_del by_length stored_cache (some (bytes "a"))).0 (some (bytes "a"))
    ≡ (none, some err_not_found)
get-del_example =
    get-del by_length 12 stored_cache (some (bytes "a"))
      (run-IsSound by_length one_key new_cache new_cache-IsSound) refl

place_key : (get_or (bucket stored_cache 1).slots 7 zero_entry).key ≡ some (bytes "a")
unfolding program
place_key = refl

some_ne_none : (k : Option Bytes) (b : Bytes) → k ≡ some b → k ≢ none
some_ne_none k b e = cc

stored_place : get_or (bucket stored_cache 1).slots 7 zero_entry ≢ zero_entry
stored_place e = some_ne_none _ (bytes "a") place_key (ap (λ x. x.key) e)

run_places_example : (7 % 8 ≡ 7) × (7 < 128)
run_places_example = run_places by_length one_key 1 7 (omega arith) (omega arith) stored_place
