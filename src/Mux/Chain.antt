-- ===== src/Mux/Chain.antt =====
-- whttp/router.go: the chain of middlewares that `BuildRoutes` makes.
use wgo.Common.{
  ◌≡◌, refl, ap, ◌∙◌, Bool, false, ◌||◌, List, [], ◌∷◌, ◌++◌, Bytes, bytes_eq, bytes_eq_iff,
  if◌then◌else◌, arith,
}
use wgo.Mux.{Middleware, in_slice_ignorecase, chain_from, from_end, chain}

module _ (lower : Bytes → Bytes) where
  in_slice-append :
      (v t : Bytes) (a : List Bytes)
      → in_slice_ignorecase lower v (a ++ t ∷ [])
        ≡ (in_slice_ignorecase lower v a || bytes_eq (lower t) (lower v))
  unfolding in_slice_ignorecase
  in_slice-append v t [] = ground arith
  in_slice-append v t (x ∷ a) = ground (arith, in_slice-append v t a)

  in_slice-none : (v : Bytes) → in_slice_ignorecase lower v [] ≡ false
  unfolding in_slice_ignorecase
  in_slice-none v = refl

  in_slice-same :
      (v t : Bytes) (a : List Bytes)
      → lower t ≡ lower v
      → in_slice_ignorecase lower v a ≡ in_slice_ignorecase lower t a
  unfolding in_slice_ignorecase
  in_slice-same v t [] e = refl
  in_slice-same v t (x ∷ a) e = rw e (ground (arith, in_slice-same v t a e))

module _ {H : Type 0} where
  -- The first of the list is the outermost.
  unfoldable pub wrap : List (Middleware H) → H → H
  wrap [] h = h
  wrap (m ∷ ms) h = m.func (wrap ms h)

module _ {H : Type 0} (lower : Bytes → Bytes) where
  -- The tag of a middleware further on in the list, whatever its case.
  unfoldable pub repeated : Bytes → List (Middleware H) → Bool
  repeated tag [] = false
  repeated tag (m ∷ ms) = bytes_eq (lower m.tag) (lower tag) || repeated tag ms

  -- The middlewares that are the last with their tag.
  unfoldable pub last_of_tag : List (Middleware H) → List (Middleware H)
  last_of_tag [] = []
  last_of_tag (m ∷ ms) = if repeated m.tag ms then last_of_tag ms else m ∷ last_of_tag ms

  -- The tags already used after a run of the loop over `ms`.
  unfoldable used_after : List (Middleware H) → List Bytes → List Bytes
  used_after [] aum = aum
  used_after (m ∷ ms) aum =
      if in_slice_ignorecase lower m.tag aum
      then used_after ms aum
      else used_after ms (aum ++ m.tag ∷ [])

  chain_from-append :
      (a : List (Middleware H)) (m : Middleware H) (aum : List Bytes) (h : H)
      → chain_from lower (a ++ m ∷ []) aum h ≡ (
          if in_slice_ignorecase lower m.tag (used_after a aum)
          then chain_from lower a aum h
          else m.func (chain_from lower a aum h))
  unfolding chain_from used_after
  chain_from-append [] m aum h = ground arith
  chain_from-append (x ∷ a) m aum h =
      ground
        (arith, chain_from-append a m aum h, chain_from-append a m (aum ++ x.tag ∷ []) (x.func h))

  repeated-append :
      (v : Bytes) (a : List (Middleware H)) (m : Middleware H)
      → repeated v (a ++ m ∷ []) ≡ (bytes_eq (lower m.tag) (lower v) || repeated v a)
  unfolding repeated
  repeated-append v [] m = ground arith
  repeated-append v (x ∷ a) m = ground (arith, repeated-append v a m)

  repeated-from_end : (v : Bytes) (a : List (Middleware H)) → repeated v (from_end a) ≡ repeated v a
  unfolding from_end repeated
  repeated-from_end v [] = refl
  repeated-from_end v (m ∷ a) =
      repeated-append v (from_end a) m
      ∙ ap (λ x. bytes_eq (lower m.tag) (lower v) || x) (repeated-from_end v a)

  in_slice-used_after :
      (v : Bytes) (a : List (Middleware H)) (aum : List Bytes)
      → in_slice_ignorecase lower v (used_after a aum)
        ≡ (in_slice_ignorecase lower v aum || repeated v a)
  unfolding used_after repeated
  in_slice-used_after v [] aum = ground arith
  in_slice-used_after v (m ∷ a) aum = ground (
    arith,
    in_slice-used_after v a aum,
    in_slice-used_after v a (aum ++ m.tag ∷ []),
    in_slice-append lower v m.tag aum,
    in_slice-same lower v m.tag aum,
    bytes_eq_iff (lower m.tag) (lower v),
  )

  -- The chain of a route is its handler in the middlewares that are the last with their tag, each
  -- once and the first of the list outermost; tags are compared as `lower` maps them.
  pub chain-wrap : (ms : List (Middleware H)) (h : H) → chain lower ms h ≡ wrap (last_of_tag ms) h
  unfolding chain from_end chain_from last_of_tag wrap
  chain-wrap [] h = refl
  chain-wrap (m ∷ ms) h = ground (
    arith,
    chain_from-append (from_end ms) m [] h,
    in_slice-used_after m.tag (from_end ms) [],
    repeated-from_end m.tag ms,
    chain-wrap ms h,
    in_slice-none lower m.tag,
  )
