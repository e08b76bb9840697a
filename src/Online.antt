-- ===== src/Online.antt =====
-- cache.go: the middleware Cache, which answers a request with the stored response of an earlier
-- one. `hash` is the cache's. A response is an object in a memory, which CopyTo, the engine and the
-- handlers change: the cache keeps objects, not their contents.
pub mod Answers
pub mod Again
mod Tests
use wgo.Common.{
  ℕ, Bool, true, false, Option, none, some, List, [], ◌∷◌, ◌++◌, Bytes, bytes, if◌then◌else◌,
}
use wgo.Common.Int.{ℤ}
use wgo.Cache.Bucket.{CacheError}
use wgo.Cache.Store.{Cache, new_cache, cache_get, cache_set}
use wgo.Proxy.Caching.{Incoming, Responses, param_string, header_string}

-- The route's options: the time to live, an int, and the parameters and headers of the key.
pub record CacheOptions : Type 0 where
  pub ttl : ℤ
  pub params : List Bytes
  pub headers : List Bytes

-- A request with its route's options, its context's response, the times of the lookup and of the
-- storing, what happens to the memory before it, as when the engine takes its response from the pool
-- and resets it, and the next handler: the memory that it leaves, NoCache, and its error.
pub record Request (R M E : Type 0) : Type 0 where
  pub incoming : Incoming
  pub options : Option CacheOptions
  pub response : R
  pub now : ℕ
  pub later : ℕ
  pub before : M → M
  pub next : M → M × Bool × Option E

-- How a request ends: the object that is copied to its response, or the next handler's error.
pub data Reply (R E : Type 0) : Type 0 where
  from_cache : Option R → Reply R E
  handled : Option E → Reply R E

-- `fmt.Sprintf("%s:%s:%s:%s:%s:%s", …)`
unfoldable pub key_of : CacheOptions → Incoming → Bytes
key_of o q =
    q.method
    ++ (bytes ":"
        ++ (q.path
            ++ (bytes ":"
                ++ (q.engine
                    ++ (bytes ":"
                        ++ (q.encoding
                            ++ (bytes ":"
                                ++ (param_string q o.params
                                    ++ (bytes ":" ++ header_string q o.headers)))))))))

-- `res.(whttp.Response).CopyTo(c.response)`; no object, a panic, is never stored.
abbrev pub copied : {R M : Type 0} → Responses R M → Option R → R → M → M
copied rs none to m = m
copied rs (some nr) to m = rs.copy_to nr to m

module _ {R M E : Type 0} (hash : Bytes → ℕ) (rs : Responses R M) where
  -- What follows the next handler: a success without NoCache is copied to a new response, which is
  -- stored.
  unfoldable pub after_next :
      Request R M E → CacheOptions → Bytes → M × Bool × Option E → Cache R → Cache R × M × Reply R E
  after_next req o key (m, no_cache, some e) c = (c, m, handled (some e))
  after_next req o key (m, true, none) c = (c, m, handled none)
  after_next req o key (m, false, none) c =
      let (nr, m1) = rs.make m in
      (
        (cache_set hash req.later c (some key) (some nr) o.ttl).0,
        rs.copy_to req.response nr m1,
        handled none,
      )

  -- What follows `cache.Get`.
  unfoldable pub after_get :
      Request R M E
      → CacheOptions
      → Bytes
      → M
      → Cache R × Option R × Option CacheError
      → Cache R × M × Reply R E
  unfolding after_next
  after_get req o key m (c, v, none) = (c, copied rs v req.response m, from_cache v)
  after_get req o key m (c, v, some e) = after_next req o key (req.next m) c

  -- The next handler alone.
  abbrev pub pass : Request R M E → M → Cache R → Cache R × M × Reply R E
  pass req m c = let (m', no_cache, e) = req.next m in (c, m', handled e)

  abbrev pub cached : Request R M E → Option CacheOptions → M → Cache R → Cache R × M × Reply R E
  cached req none m c = pass req m c
  cached req (some o) m c =
      let key = key_of o req.incoming in after_get req o key m (cache_get hash req.now c (some key))

  -- `Cache`
  unfoldable pub online : Request R M E → M → Cache R → Cache R × M × Reply R E
  unfolding after_get
  online req m c = if req.incoming.is_rpc then pass req m c else cached req req.options m c

  -- A request of a server with a cache and a memory.
  abbrev pub request : Request R M E → Cache R × M → Cache R × M × Reply R E
  request req (c, m) = online req (req.before m) c

  -- The cache and the memory after requests, the latest first, from a memory and a new cache.
  abbrev pub after : M → List (Request R M E) → Cache R × M
  after m [] = (new_cache, m)
  after m (req ∷ past) = let (c, m', reply) = request req (after m past) in (c, m')
