-- ===== src/Online/Answers.antt =====
-- cache.go: the objects that the middleware answers from its cache.
use mathlib.Core.Path.{subst}
use wgo.Common.{
  if◌then◌else◌, ℕ, ◌≡◌, refl, sym, ap, ◌∙◌, arith, Bool-cases, Bool, true, false, Option, none,
  some, List, [], ◌∷◌, Bytes, ◌⊎◌, inl, inr,
}
use wgo.Cache.Bucket.{CacheError}
use wgo.Cache.Store.{Cache, cache_get, cache_set}
use wgo.Cache.Sound.{IsSound, new_cache-IsSound}
use wgo.Cache.Runs.{set_op, get_op, perform-IsSound}
use wgo.Cache.Stored.{Stored, new_cache-Stored, cache_get-Stored, cache_set-Stored, hit-Stored}
use wgo.Online.{
  CacheOptions, Request, Reply, pass, from_cache, handled, key_of, copied, after_next, after_get,
  cached, online, request, after,
}
use wgo.Proxy.Caching.{Responses}

module _ {R M E : Type 0} (hash : Bytes → ℕ) (rs : Responses R M) where
  online-rpc :
      (req : Request R M E) (m : M) (c : Cache R)
      → req.incoming.is_rpc ≡ true
      → online hash rs req m c ≡ pass hash rs req m c
  unfolding online
  online-rpc req m c rpc =
      ap (λ b. if b then pass hash rs req m c else cached hash rs req req.options m c) rpc

  online-http :
      (req : Request R M E) (m : M) (c : Cache R)
      → req.incoming.is_rpc ≡ false
      → online hash rs req m c ≡ cached hash rs req req.options m c
  unfolding online
  online-http req m c http =
      ap (λ b. if b then pass hash rs req m c else cached hash rs req req.options m c) http

  pub online-given :
      (req : Request R M E) (o : CacheOptions) (m : M) (c : Cache R)
      → req.incoming.is_rpc ≡ false
      → req.options ≡ some o
      → online hash rs req m c ≡ cached hash rs req (some o) m c
  online-given req o m c http given =
      online-http req m c http ∙ ap (λ x. cached hash rs req x m c) given

  after_get-stored :
      (req : Request R M E) (o : CacheOptions) (key : Bytes) (m m' : M) (c : Cache R) (v : Option R)
      (err : Option CacheError) (e : CacheError)
      → err ≡ some e
      → req.next m ≡ (m', false, none)
      → after_get hash rs req o key m (c, v, err) ≡ (
        (cache_set hash req.later c (some key) (some (rs.make m').0) o.ttl).0,
        rs.copy_to req.response (rs.make m').0 (rs.make m').1,
        handled none,
      )
  unfolding after_get after_next
  after_get-stored req o key m m' c v err e missed succeeded = rw missed (rw succeeded refl)

  -- A request that misses the cache and whose handler succeeds without NoCache.
  pub online-stored :
      (req : Request R M E) (o : CacheOptions) (m m' : M) (c : Cache R) (e : CacheError)
      → req.incoming.is_rpc ≡ false
      → req.options ≡ some o
      → (cache_get hash req.now c (some (key_of o req.incoming))).2 ≡ some e
      → req.next m ≡ (m', false, none)
      → let key = key_of o req.incoming in
        online hash rs req m c ≡ (
          (cache_set hash req.later
              (cache_get hash req.now c (some key)).0
              (some key)
              (some (rs.make m').0)
              o.ttl).0,
          rs.copy_to req.response (rs.make m').0 (rs.make m').1,
          handled none,
        )
  online-stored req o m m' c e http given missed succeeded =
      online-given req o m c http given
      ∙ after_get-stored req o (key_of o req.incoming) m m' _ _ _ e missed succeeded

module _ {R M E : Type 0} (hash : Bytes → ℕ) (rs : Responses R M) (start : M) where
  -- The request, on a cache and a memory, has missed the cache under the key, its handler has then
  -- succeeded without NoCache, and the object is the response made next, to which its own response
  -- is copied.
  pub record Kept (k : Bytes) (v : Option R) (req : Request R M E) (w : Cache R × M) : Type 0 where
    pub http : req.incoming.is_rpc ≡ false
    pub options : CacheOptions
    pub given : req.options ≡ some options
    pub key : key_of options req.incoming ≡ k
    pub error : CacheError
    pub missed : (cache_get hash req.now w.0 (some (key_of options req.incoming))).2 ≡ some error
    pub memory : M
    pub succeeded : req.next (req.before w.1) ≡ (memory, false, none)
    pub made : v ≡ some (rs.make memory).0
    pub filled :
        (online hash rs req (req.before w.1) w.0).1
        ≡ rs.copy_to req.response (rs.make memory).0 (rs.make memory).1

  -- One of the requests has, on the cache and the memory after those before it.
  abbrev pub KeptBy : List (Request R M E) → Bytes → Option R → Type 0
  KeptBy [] k v = ⊥
  KeptBy (req ∷ past) k v = Kept k v req (after hash rs start past) ⊎ KeptBy past k v

  abbrev Holds : List (Request R M E) → Cache R → Type 0
  Holds past c = IsSound c × Stored hash (KeptBy past) c

  Holds-later :
      (past : List (Request R M E)) (req : Request R M E) (c : Cache R)
      → Holds past c
      → Holds (req ∷ past) c
  Holds-later past req c (s, st) = (s, λ j t k e. inr (st j t k e))

  after_next-Holds :
      (past : List (Request R M E)) (req : Request R M E) (o : CacheOptions) (c : Cache R)
      (e : CacheError) (out : M × Bool × Option E)
      → let w = after hash rs start past in
        let key = key_of o req.incoming in
        req.incoming.is_rpc ≡ false
        → req.options ≡ some o
        → (cache_get hash req.now w.0 (some key)).2 ≡ some e
        → req.next (req.before w.1) ≡ out
        → Holds (req ∷ past) c
        → Holds (req ∷ past) (after_next hash rs req o key out c).0
  unfolding after_next
  after_next-Holds past req o c e (m, no_cache, some f) http given missed is h = h
  after_next-Holds past req o c e (m, true, none) http given missed is h = h
  after_next-Holds past req o c e (m, false, none) http given missed is (s, st) =
      let w = after hash rs start past in
      let key = key_of o req.incoming in
      (
        perform-IsSound hash (set_op req.later (some key) (some (rs.make m).0) o.ttl) c s,
        cache_set-Stored hash (KeptBy (req ∷ past)) req.later c key (some (rs.make m).0) o.ttl s st
            (inl (record {
              http = http;
              options = o;
              given = given;
              key = refl;
              error = e;
              missed = missed;
              memory = m;
              succeeded = is;
              made = refl;
              filled =
                  ap (λ x. x.1)
                    (online-stored hash rs req o (req.before w.1) m w.0 e http given missed is);
            })),
      )

  after_get-Holds :
      (past : List (Request R M E)) (req : Request R M E) (o : CacheOptions) (c : Cache R)
      (v : Option R) (err : Option CacheError)
      → let w = after hash rs start past in
        let key = key_of o req.incoming in
        req.incoming.is_rpc ≡ false
        → req.options ≡ some o
        → (cache_get hash req.now w.0 (some key)).2 ≡ err
        → Holds (req ∷ past) c
        → Holds (req ∷ past) (after_get hash rs req o key (req.before w.1) (c, v, err)).0
  unfolding after_get
  after_get-Holds past req o c v none http given same h = h
  after_get-Holds past req o c v (some e) http given same h =
      after_next-Holds past req o c e _ http given same refl h

  cached-Holds :
      (past : List (Request R M E)) (req : Request R M E) (options : Option CacheOptions)
      → let w = after hash rs start past in
        req.incoming.is_rpc ≡ false
        → req.options ≡ options
        → Holds past w.0
        → Holds (req ∷ past) (cached hash rs req options (req.before w.1) w.0).0
  cached-Holds past req none http given h = Holds-later past req (after hash rs start past).0 h
  cached-Holds past req (some o) http given (s, st) =
      let w = after hash rs start past in
      let key = key_of o req.incoming in
      let got = cache_get hash req.now w.0 (some key) in
      after_get-Holds past req o got.0 got.1 got.2 http given refl (
        Holds-later past req got.0 (
          perform-IsSound hash (get_op req.now (some key)) w.0 s,
          cache_get-Stored hash (KeptBy past) req.now w.0 (some key) s st,
        ))

  Holds-online :
      (past : List (Request R M E)) (req : Request R M E)
      → let w = after hash rs start past in
        Holds past w.0 → Holds (req ∷ past) (online hash rs req (req.before w.1) w.0).0
  Holds-online past req h =
      let w = after hash rs start past in
      elim (Bool-cases req.incoming.is_rpc) [
        | inl rpc ↦
            subst (λ (x : Cache R × M × Reply R E). Holds (req ∷ past) x.0)
              (sym (online-rpc hash rs req (req.before w.1) w.0 rpc)) (Holds-later past req w.0 h)
        | inr http ↦
            subst (λ (x : Cache R × M × Reply R E). Holds (req ∷ past) x.0)
              (sym (online-http hash rs req (req.before w.1) w.0 http))
              (cached-Holds past req req.options http refl h)
      ]

  pub after-Holds : (past : List (Request R M E)) → Holds past (after hash rs start past).0
  after-Holds [] = (new_cache-IsSound, new_cache-Stored hash (KeptBy []))
  after-Holds (req ∷ past) = Holds-online past req (after-Holds past)

  handled_apart : (v : Option R) (e : Option E) → ◌≡◌ {A = Reply R E} (handled e) (from_cache v) → ⊥
  handled_apart v e h = ground arith

  from_cache-injective :
      (v w : Option R) → ◌≡◌ {A = Reply R E} (from_cache w) (from_cache v) → v ≡ w
  from_cache-injective v w h = cc h

  after_next-handled :
      (req : Request R M E) (o : CacheOptions) (key : Bytes) (out : M × Bool × Option E)
      (c : Cache R) (v : Option R)
      → (after_next hash rs req o key out c).2 ≡ from_cache v
      → ⊥
  unfolding after_next
  after_next-handled req o key (m, no_cache, some e) c v h = handled_apart v (some e) h
  after_next-handled req o key (m, true, none) c v h = handled_apart v none h
  after_next-handled req o key (m, false, none) c v h = handled_apart v none h

  -- What a hit tells of the lookup.
  after_get-hit :
      (req : Request R M E) (o : CacheOptions) (key : Bytes) (m : M) (c : Cache R) (w : Option R)
      (err : Option CacheError) (v : Option R)
      → (after_get hash rs req o key m (c, w, err)).2 ≡ from_cache v
      → (err ≡ none)
        × (v ≡ w)
        × ((after_get hash rs req o key m (c, w, err)).1 ≡ copied rs v req.response m)
  unfolding after_get
  after_get-hit req o key m c w none v h =
      let same = from_cache-injective v w h in
      (refl, same, ap (λ x. copied rs x req.response m) (sym same))
  after_get-hit req o key m c w (some e) v h =
      absurd (after_next-handled req o key (req.next m) c v h)

  -- A hit: the route's options, where the object comes from, and what becomes of the memory.
  abbrev pub Hit :
      List (Request R M E) → Request R M E → Option CacheOptions → Option R → M → Type 0
  Hit past req options v m =
      (o : CacheOptions) × (options ≡ some o)
      × KeptBy past (key_of o req.incoming) v
      × (m ≡ copied rs v req.response (req.before (after hash rs start past).1))

  cached-Hit :
      (past : List (Request R M E)) (req : Request R M E) (options : Option CacheOptions)
      (v : Option R)
      → let w = after hash rs start past in
        let out = cached hash rs req options (req.before w.1) w.0 in
        out.2 ≡ from_cache v → Hit past req options v out.1
  cached-Hit past req none v hit = absurd (handled_apart v _ hit)
  cached-Hit past req (some o) v hit =
      let w = after hash rs start past in
      let key = key_of o req.incoming in
      let got = cache_get hash req.now w.0 (some key) in
      let (s, st) = after-Holds past in
      let (found, same, memory) =
        after_get-hit req o key (req.before w.1) got.0 got.1 got.2 v hit in
      (o, refl, rw same (hit-Stored hash (KeptBy past) req.now w.0 key s st found), memory)

  -- For any hash, memory and engine, and any requests on a new cache and this memory: when the
  -- middleware answers the next request from the cache, its route has options, and the object that
  -- is copied to its response is one that the middleware has made for a request before, of the same
  -- key under its own route's options, which missed the cache and whose handler then succeeded
  -- without NoCache, and filled by CopyTo from that one's response. Nothing is said of what the
  -- object holds by then.
  pub online-Kept :
      (past : List (Request R M E)) (req : Request R M E) (v : Option R)
      → let out = request hash rs req (after hash rs start past) in
        out.2 ≡ from_cache v → Hit past req req.options v out.1
  online-Kept past req v hit =
      let w = after hash rs start past in
      elim (Bool-cases req.incoming.is_rpc) [
        | inl rpc ↦ absurd (
            handled_apart v _
              (sym (ap (λ x. x.2) (online-rpc hash rs req (req.before w.1) w.0 rpc)) ∙ hit))
        | inr http ↦
            let same = online-http hash rs req (req.before w.1) w.0 http in
            subst (λ (x : Cache R × M × Reply R E). Hit past req req.options v x.1) (sym same)
              (cached-Hit past req req.options v (sym (ap (λ x. x.2) same) ∙ hit))
      ]
