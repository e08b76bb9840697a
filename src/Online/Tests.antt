-- ===== src/Online/Tests.antt =====
-- cache.go: runs of the middleware, and the theorems at concrete requests.
use wgo.Common.{
  length, get_or, set, ◌++◌, List, ℕ, ◌≡◌, refl, false, none, some, [], ◌∷◌, Bytes, bytes, bytes_eq,
}
use wgo.Common.Int.{pos}
use wgo.Cache.Bucket.{
  err_not_found, is_expired, expiry, key_matches, new_bucket, search_idx, entry_idx, scan, lookup,
  get_entry,
}
use wgo.Cache.Store.{new_cache, new_buckets, count_lookup, cache_get}
use wgo.Cache.Refine.{is_large, new_entry}
use wgo.Proxy.Caching.{Incoming, Responses, param_string, header_string}
use wgo.Online.{CacheOptions, Request, from_cache, key_of, request, after}
use wgo.Online.Answers.{Hit, online-Kept}
use wgo.Online.Again.{online-again}

abbrev users : Incoming
users = record {
  is_rpc = false;
  host = bytes "h";
  path = bytes "/users";
  method = bytes "GET";
  engine = bytes "e";
  encoding = [];
  query = λ n. bytes "1";
  header = λ n. [];
}

abbrev by_page : CacheOptions
by_page = record { ttl = pos 5; params = bytes "page" ∷ []; headers = [] }

-- A memory of numbers, in which an object is a place.
abbrev places : Responses ℕ (List ℕ)
places = record {
  copy_to = λ from to m. set m to (get_or m from 0);
  make = λ m. (length m, m ++ 0 ∷ []);
}

-- A request with the response in the first place, to which its handler writes `r`.
abbrev answers : ℕ → ℕ → Request ℕ (List ℕ) Bytes
answers at r = record {
  incoming = users;
  options = some by_page;
  response = 0;
  now = at;
  later = at;
  before = λ m. set m 0 0;
  next = λ m. (set m 0 r, false, none);
}

abbrev one_hash : Bytes → ℕ
one_hash k = 7

users_missed :
    (cache_get {V = ℕ} one_hash 10 new_cache (some (key_of by_page users))).2 ≡ some err_not_found
unfolding key_of param_string header_string bytes_eq key_matches new_bucket search_idx entry_idx
    scan lookup get_entry new_buckets new_cache cache_get count_lookup
users_missed = refl

users_fresh :
    is_expired {V = ℕ} 12 (
      new_entry 10 (some (key_of by_page users)) (some 1) (one_hash (key_of by_page users)) (pos 5))
    ≡ false
unfolding expiry
users_fresh = refl

users_small : is_large (some (key_of by_page users)) ≡ false
unfolding key_of param_string header_string
users_small = refl

-- The memory after both requests: the second has the first's answer in its response.
online-again_example :
    ((request one_hash places (answers 12 6) (after one_hash places (0 ∷ []) (answers 10 5 ∷ []))).1
      ≡ 5 ∷ 5 ∷ [])
    × ((request one_hash places
          (answers 12 6)
          (after one_hash places (0 ∷ []) (answers 10 5 ∷ []))).2
        ≡ from_cache (some 1))
online-again_example =
    online-again one_hash places (0 ∷ []) [] (answers 10 5) (answers 12 6) by_page by_page
      err_not_found (5 ∷ []) refl refl refl refl refl users_small users_missed refl users_fresh

online-Kept_example :
    Hit one_hash places
      (0 ∷ [])
      (answers 10 5 ∷ [])
      (answers 12 6)
      (some by_page)
      (some 1)
      (request one_hash places
        (answers 12 6)
        (after one_hash places (0 ∷ []) (answers 10 5 ∷ []))).1
online-Kept_example =
    online-Kept one_hash places (0 ∷ []) (answers 10 5 ∷ []) (answers 12 6) (some 1)
      (online-again one_hash places (0 ∷ []) [] (answers 10 5) (answers 12 6) by_page by_page
        err_not_found (5 ∷ []) refl refl refl refl refl users_small users_missed refl users_fresh).1
