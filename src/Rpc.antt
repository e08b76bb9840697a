-- ===== src/Rpc.antt =====
-- wrpc/mux.go: `Use`, `Add` and the routing of `Serve` by the method's name. The loop over the
-- middlewares is that of whttp/router.go, and so are its definitions here.
pub mod Serving
mod Tests
use wgo.Common.{Option, none, some, List, [], ◌∷◌, ◌++◌, Bytes, bytes_eq, if◌then◌else◌}
use wgo.Mux.{Middleware, chain}

pub record RpcMux (H : Type 0) : Type 0 where
  pub middleware : List (Middleware H)
  pub router : List (Bytes × H)

module _ {H : Type 0} where
  unfoldable pub new_rpc_mux : RpcMux H
  new_rpc_mux = record { middleware = []; router = [] }

  unfoldable pub rpc_use : RpcMux H → List (Middleware H) → RpcMux H
  rpc_use m ms = record m { middleware = m.middleware ++ ms }

  -- `m.router[methodName] = h`
  unfoldable pub put_handler : List (Bytes × H) → Bytes → H → List (Bytes × H)
  put_handler [] name h = (name, h) ∷ []
  put_handler ((n, h') ∷ rest) name h =
      if bytes_eq n name then (n, h) ∷ rest else (n, h') ∷ put_handler rest name h

  unfoldable pub rpc_add : (Bytes → Bytes) → RpcMux H → Bytes → H → RpcMux H
  rpc_add lower m name h = record m {
    router = put_handler m.router name (chain lower m.middleware h);
  }

  -- `m.router[name]`
  unfoldable pub handler_in : List (Bytes × H) → Bytes → Option H
  handler_in [] name = none
  handler_in ((n, h) ∷ rest) name = if bytes_eq n name then some h else handler_in rest name

  -- The handler that `Serve` runs; `none` is the error "not found route".
  unfoldable pub rpc_serve : RpcMux H → Bytes → Option H
  rpc_serve m name = handler_in m.router name
