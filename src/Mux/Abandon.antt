-- ===== src/Mux/Abandon.antt =====
-- whttp/mux.go, whttp/router.go: `Use` and `Abandon` of middlewares.
use wgo.Common.{
  append_step, append_nil, ◌≡◌, refl, ap, ◌∙◌, true, false, List, [], ◌∷◌, ◌++◌, Bytes,
  bytes_eq_refl, arith, All, Bool-cases, inl, inr,
}
use wgo.Mux.{Middleware, Mux, abandoned, abandon, mux_use, mux_abandon}

module _ {H : Type 0} where
  abandon-append :
      (a b ms : List (Middleware H)) → abandon (a ++ b) ms ≡ abandon a ms ++ abandon b ms
  unfolding abandon
  abandon-append [] b ms = refl
  abandon-append (m ∷ a) b ms = ground (arith, abandon-append a b ms)

  abandoned-append :
      (tag : Bytes) (a b : List (Middleware H))
      → abandoned tag b ≡ true
      → abandoned tag (a ++ b) ≡ true
  unfolding abandoned
  abandoned-append tag [] b h = h
  abandoned-append tag (m ∷ a) b h = ground (arith, abandoned-append tag a b h)

  abandoned-head : (m : Middleware H) (ms : List (Middleware H)) → abandoned m.tag (m ∷ ms) ≡ true
  unfolding abandoned
  abandoned-head m ms = rw (bytes_eq_refl m.tag) refl

  -- Every middleware of a list is abandoned by a list that ends with it.
  abandon_self : (a b : List (Middleware H)) → abandon b (a ++ b) ≡ []
  unfolding abandon
  abandon_self a [] = refl
  abandon_self a (m ∷ b) = ground (
    arith,
    abandoned-append m.tag a (m ∷ b) (abandoned-head m b),
    ap (λ z. abandon b z) (append_step a m b),
    abandon_self (a ++ m ∷ []) b,
  )

  abandon-append_self : (xs ms : List (Middleware H)) → abandon (xs ++ ms) ms ≡ abandon xs ms
  abandon-append_self xs ms =
      abandon-append xs ms ms
      ∙ ap (λ z. abandon xs ms ++ z) (abandon_self [] ms)
      ∙ append_nil (abandon xs ms)

  -- No middleware that is left has a tag of the abandoned ones.
  abandon-clean :
      (xs ms : List (Middleware H)) → All (λ m. abandoned m.tag ms ≡ false) (abandon xs ms)
  unfolding abandon
  abandon-clean [] ms = tt
  abandon-clean (x ∷ xs) ms = elim (Bool-cases (abandoned x.tag ms)) [
    | inl out ↦ rw out (abandon-clean xs ms)
    | inr stays ↦ rw stays (stays, abandon-clean xs ms)
  ]

module _ {H O : Type 0} where
  -- `Abandon` after `Use` of the same middlewares leaves the mux as `Abandon` alone does, and no
  -- middleware whose tag was abandoned stays.
  pub abandon-use :
      (m : Mux H O) (ms : List (Middleware H))
      → (mux_abandon (mux_use m ms) ms ≡ mux_abandon m ms)
        × All (λ x. abandoned x.tag ms ≡ false) (mux_abandon (mux_use m ms) ms).middleware
  unfolding mux_abandon mux_use
  abandon-use m ms = (
    ap (λ z. record m { middleware = z }) (abandon-append_self m.middleware ms),
    abandon-clean (m.middleware ++ ms) ms,
  )
