-- ===== src/Online/Again.antt =====
-- cache.go: a request behind one that has stored its response.
use wgo.Common.{ℕ, ◌≡◌, refl, ap, ◌∙◌, false, Option, none, some, List, ◌∷◌, Bytes}
use wgo.Cache.Bucket.{CacheError, is_expired}
use wgo.Cache.Store.{Cache, cache_get, cache_set}
use wgo.Cache.Refine.{is_large, new_entry}
use wgo.Cache.Laws.{get-set, result}
use wgo.Cache.Runs.{get_op, perform-IsSound}
use wgo.Proxy.Caching.{Responses}
use wgo.Online.{
  CacheOptions, Request, Reply, from_cache, handled, key_of, after_get, cached, online, request,
  after,
}
use wgo.Online.Answers.{after-Holds, online-given, online-stored}

module _ {R M E : Type 0} (hash : Bytes → ℕ) (rs : Responses R M) where
  after_get-found :
      (req : Request R M E) (o : CacheOptions) (key : Bytes) (m : M) (c : Cache R) (v : Option R)
      (err : Option CacheError) (nr : R)
      → v ≡ some nr
      → err ≡ none
      → after_get hash rs req o key m (c, v, err)
        ≡ (c, rs.copy_to nr req.response m, from_cache (some nr))
  unfolding after_get
  after_get-found req o key m c v err nr found hit = rw (hit, found) refl

  -- For any engine and any requests on a new cache: when a request behind them misses the cache and
  -- its handler ends with success and without NoCache, it is copied to a new response; the next
  -- request with the same key, of at most 65535 bytes, is answered from the cache, its handler is
  -- not run, and all that happens to the memory is what happens before it and the copying of that
  -- response to its own, until the stored expiry is over.
  pub online-again :
      (start : M) (past : List (Request R M E)) (req req' : Request R M E) (o o' : CacheOptions)
      (e : CacheError) (m : M)
      → let w = after hash rs start past in
        let key = key_of o req.incoming in
        let nr = (rs.make m).0 in
        req.incoming.is_rpc ≡ false
        → req'.incoming.is_rpc ≡ false
        → req.options ≡ some o
        → req'.options ≡ some o'
        → key_of o' req'.incoming ≡ key
        → is_large (some key) ≡ false
        → (cache_get hash req.now w.0 (some key)).2 ≡ some e
        → req.next (req.before w.1) ≡ (m, false, none)
        → is_expired {V = R} req'.now (new_entry req.later (some key) (some nr) (hash key) o.ttl)
          ≡ false
        → let out = request hash rs req' (after hash rs start (req ∷ past)) in
          (out.1
            ≡ rs.copy_to nr req'.response (req'.before (rs.copy_to req.response nr (rs.make m).1)))
          × (out.2 ≡ from_cache (some nr))
  online-again start past req req' o o' e m http http' given given' same small missed succeeded
        fresh =
      let w = after hash rs start past in
      let key = key_of o req.incoming in
      let nr = (rs.make m).0 in
      let c1 = (cache_get hash req.now w.0 (some key)).0 in
      let c2 = (cache_set hash req.later c1 (some key) (some nr) o.ttl).0 in
      let m2 = rs.copy_to req.response nr (rs.make m).1 in
      let sound =
        perform-IsSound hash (get_op req.now (some key)) w.0 (after-Holds hash rs start past).0 in
      let answer : result hash req'.now c2 (some key) ≡ (some nr, none) =
        get-set hash req.later req'.now c1 key (some nr) o.ttl sound small ∙ rw fresh refl in
      let first : online hash rs req (req.before w.1) w.0 ≡ (c2, m2, handled none) =
        online-stored hash rs req o (req.before w.1) m w.0 e http given missed succeeded in
      let got = cache_get hash req'.now c2 (some key) in
      let second : cached hash rs req' (some o') (req'.before m2) c2
          ≡ (got.0, rs.copy_to nr req'.response (req'.before m2), from_cache (some nr)) =
        rw same (
          after_get-found req' o' key (req'.before m2) got.0 got.1 got.2 nr (ap (λ p. p.0) answer)
            (ap (λ p. p.1) answer)) in
      let whole =
        ap (λ (x : Cache R × M × Reply R E). online hash rs req' (req'.before x.1) x.0) first
        ∙ online-given hash rs req' o' (req'.before m2) c2 http' given'
        ∙ second in
      (ap (λ x. x.1) whole, ap (λ x. x.2) whole)
