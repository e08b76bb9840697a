-- ===== src/Rpc/Tests.antt =====
-- wrpc/mux.go: the theorem at a concrete mux.
use wgo.Common.{ℕ, ◌≡◌, some, List, [], ◌∷◌, Bytes, bytes, bytes_eq, if◌then◌else◌}
use wgo.Mux.{Middleware}
use wgo.Mux.Chain.{wrap, last_of_tag}
use wgo.Rpc.{RpcMux, rpc_add, rpc_serve}
use wgo.Rpc.Serving.{rpc_serve-rpc_add}

abbrev mark : Middleware (List ℕ)
mark = record { tag = bytes "m"; func = λ h. 1 ∷ h }

abbrev same_case : Bytes → Bytes
same_case b = b

abbrev marked_mux : RpcMux (List ℕ)
marked_mux = record { middleware = mark ∷ mark ∷ []; router = (bytes "Ping", 7 ∷ []) ∷ [] }

rpc_serve-rpc_add_example :
    rpc_serve (rpc_add same_case marked_mux (bytes "Echo") (8 ∷ [])) (bytes "Echo") ≡ (
      if bytes_eq (bytes "Echo") (bytes "Echo")
      then some (wrap (last_of_tag same_case marked_mux.middleware) (8 ∷ []))
      else rpc_serve marked_mux (bytes "Echo"))
rpc_serve-rpc_add_example =
    rpc_serve-rpc_add same_case marked_mux (bytes "Echo") (8 ∷ []) (bytes "Echo")
