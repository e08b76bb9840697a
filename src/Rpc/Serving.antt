-- ===== src/Rpc/Serving.antt =====
-- wrpc/mux.go: what `Serve` runs after `Add`.
use wgo.Common.{
  ◌≡◌, ap, ◌∙◌, true, some, List, [], ◌∷◌, Bytes, bytes_eq, bytes_eq_iff, if◌then◌else◌, arith,
}
use wgo.Mux.Chain.{wrap, last_of_tag, chain-wrap}
use wgo.Rpc.{RpcMux, put_handler, handler_in, rpc_add, rpc_serve}

bytes_eq_trans : (a b c : Bytes) → bytes_eq a b ≡ true → bytes_eq a c ≡ bytes_eq b c
bytes_eq_trans a b c e = ap (λ x. bytes_eq x c) ((bytes_eq_iff a b).0 e)

bytes_eq-same : (a b c : Bytes) → bytes_eq b c ≡ true → bytes_eq a b ≡ bytes_eq a c
bytes_eq-same a b c e = ap (bytes_eq a) ((bytes_eq_iff b c).0 e)

module _ {H : Type 0} where
  handler_in-put_handler :
      (r : List (Bytes × H)) (name : Bytes) (h : H) (q : Bytes)
      → handler_in (put_handler r name h) q ≡ (if bytes_eq name q then some h else handler_in r q)
  unfolding handler_in put_handler
  handler_in-put_handler [] name h q = ground arith
  handler_in-put_handler ((n, h') ∷ r) name h q =
      ground
        (arith, handler_in-put_handler r name h q, bytes_eq_trans n name q, bytes_eq-same n name q)

  -- After `Add`, `Serve` runs for exactly the added name the handler in the middlewares that the mux
  -- has at that time, each last with its tag and once, and for other names what it ran before.
  pub rpc_serve-rpc_add :
      (lower : Bytes → Bytes) (m : RpcMux H) (name : Bytes) (h : H) (q : Bytes)
      → rpc_serve (rpc_add lower m name h) q ≡ (
          if bytes_eq name q then some (wrap (last_of_tag lower m.middleware) h) else rpc_serve m q)
  unfolding rpc_serve rpc_add
  rpc_serve-rpc_add lower m name h q =
      handler_in-put_handler m.router name _ q
      ∙ ap (λ x. if bytes_eq name q then some x else handler_in m.router q)
          (chain-wrap lower m.middleware h)
