-- ===== src/Proxy/Caching.antt =====
-- Proxy in whttp/proxy.go: the middleware with its cache. `parse` is `url.Parse`, and `hash` the
-- cache's; what `doProxy` does is an argument. A response is an object in a memory, which CopyTo, the
-- engine and the handlers change: the cache keeps objects, not their contents.
pub mod Shared
use wgo.Common.{
  ℕ, ◌≡◌, refl, Bool, true, false, Option, none, some, List, [], ◌∷◌, ◌++◌, Bytes, bytes,
  if◌then◌else◌,
}
use wgo.Cache.Bucket.{CacheError}
use wgo.Cache.Store.{Cache, cache_get, cache_set}
use wgo.Proxy.Target.{Options, ProxyCfg, HostCfg, endpoint_of, proxy_cfg, target}

-- What the middleware reads from the context. `is_rpc` is whether the server's mode is one of wrpc,
-- rpc and grpc.
pub record Incoming : Type 0 where
  pub is_rpc : Bool
  pub host : Bytes
  pub path : Bytes
  pub method : Bytes
  pub engine : Bytes
  pub encoding : Bytes
  pub query : Bytes → Bytes
  pub header : Bytes → Bytes

-- The interface of the engines' responses, over objects and a memory: `copy_to from to` is what
-- from.CopyTo(to) does to the memory, which may let the two share parts; `make` is NewResponse.
pub record Responses (R M : Type 0) : Type 0 where
  pub copy_to : R → R → M → M
  pub make : M → R × M

-- How a request ends: with the next handler, with the stored object copied to the context's
-- response, or with what `doProxy` has answered and whether it succeeded.
pub data Served (R : Type 0) : Type 0 where
  next : Served R
  from_cache : Option R → Served R
  forwarded : Bool → Served R

unfoldable pub param_string : Incoming → List Bytes → Bytes
param_string q [] = []
param_string q (n ∷ ns) = q.query n ++ (bytes "," ++ param_string q ns)

unfoldable pub header_string : Incoming → List Bytes → Bytes
header_string q [] = []
header_string q (n ∷ ns) = q.header n ++ header_string q ns

-- `fmt.Sprintf("%s:%s:%s:%s:%s:%s", …)`
unfoldable pub cache_key : Options → Incoming → Bytes
cache_key o q =
    q.method
    ++ (bytes ":"
        ++ (q.path
            ++ (bytes ":"
                ++ (q.engine
                    ++ (bytes ":"
                        ++ (q.encoding
                            ++ (bytes ":"
                                ++ (param_string q o.params
                                    ++ (bytes ":" ++ header_string q o.headers)))))))))

-- `doProxy` at a URL with extra headers: it changes the context's response in the memory, and
-- succeeds or not.
abbrev pub Backend : Type 0 → Type 0 → Type 0
Backend U M = U → List (Bytes × Bytes) → M → M × Bool

-- The backend and the options for a request, when the `i`-th address is drawn.
unfoldable pub target_of :
    {U : Type 0} → (Bytes → Option U) → List (Bytes × HostCfg) → ℕ → Incoming → Option U × Options
target_of parse config i q = target parse i (proxy_cfg config q.host (endpoint_of q.path))

module _ {R M : Type 0} (hash : Bytes → ℕ) (rs : Responses R M) (response : R) where
  -- What follows `doProxy` with the cache enabled: a success is copied to a new response, which is
  -- stored. `response` is the context's.
  unfoldable pub forward_and_store :
      ℕ → Options → Bytes → M × Bool → Cache R → Cache R × M × Served R
  forward_and_store later o key (m, false) c = (c, m, forwarded false)
  forward_and_store later o key (m, true) c =
      let (nr, m1) = rs.make m in
      (
        (cache_set hash later c (some key) (some nr) o.ttl).0,
        rs.copy_to response nr m1,
        forwarded true,
      )

  -- `res.(Response).CopyTo(c.Response())`; no object, a panic, is never stored.
  abbrev pub copied : Option R → M → M
  copied none m = m
  copied (some nr) m = rs.copy_to nr response m

  abbrev pub uncached : M × Bool → Cache R → Cache R × M × Served R
  uncached (m, b) c = (c, m, forwarded b)

module _ {U R M : Type 0} (hash : Bytes → ℕ) (rs : Responses R M) (response : R) where
  -- What follows `cache.Get`.
  unfoldable pub after_lookup :
      ℕ
      → Backend U M
      → U
      → Options
      → Bytes
      → M
      → Cache R × Option R × Option CacheError
      → Cache R × M × Served R
  after_lookup later do_proxy u o key m (c, v, none) =
      (c, copied hash rs response v m, from_cache v)
  after_lookup later do_proxy u o key m (c, v, some e) =
      forward_and_store hash rs response later o key (do_proxy u o.extra_headers m) c

  -- A request to a backend at the time `now`; `later` is the time of the response.
  unfoldable pub exchange :
      ℕ → ℕ → Backend U M → Incoming → U → Options → M → Cache R → Cache R × M × Served R
  exchange now later do_proxy q u o m c =
      let key = cache_key o q in
      if o.enable_cache
      then after_lookup later do_proxy u o key m (cache_get hash now c (some key))
      else uncached hash rs response (do_proxy u o.extra_headers m) c

  unfoldable pub proxy :
      (Bytes → Option U)
      → ℕ
      → ℕ
      → Option (List (Bytes × HostCfg))
      → ℕ
      → Backend U M
      → Incoming
      → M
      → Cache R
      → Cache R × M × Served R
  proxy parse now later none i do_proxy q m c = (c, m, next)
  proxy parse now later (some config) i do_proxy q m c =
      if q.is_rpc
      then (c, m, next)
      else let (u, o) = target_of parse config i q in
        elim u [ none ↦ (c, m, next) | some u' ↦ exchange now later do_proxy q u' o m c ]
