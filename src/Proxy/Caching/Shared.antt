-- ===== src/Proxy/Caching/Shared.antt =====
-- Proxy in whttp/proxy.go: which requests share a stored response.
use wgo.Common.{◌≡◌}
use wgo.Cache.Store.{Cache}
use wgo.Proxy.Target.{Options}
use wgo.Proxy.Caching.{Incoming, param_string, header_string}

-- What the key of a stored response does not tell apart.
pub record SameKey (o : Options) (q q' : Incoming) : Type 0 where
  pub same_method : q'.method ≡ q.method
  pub same_path : q'.path ≡ q.path
  pub same_engine : q'.engine ≡ q.engine
  pub same_encoding : q'.encoding ≡ q.encoding
  pub same_params : param_string q' o.params ≡ param_string q o.params
  pub same_headers : header_string q' o.headers ≡ header_string q o.headers
