-- ===== src/Rest/Handlers/Builtin.antt =====
-- Builtin and handlerByMethod in rest/router.go: the routes that a model has of its own.
use wgo.Common.{
  ℕ, ◌≡◌, refl, Bool, true, false, List, [], ◌∷◌, ◌++◌, Bytes, bytes, ltb, ◌==◌, if◌then◌else◌, All,
}
use Prim.Native.Nat.{bit_and}

-- The handlers that handlerByMethod gives.
pub data Handler : Type 0 where
  get search post delete patch put head deny : Handler

abbrev gm_all : ℕ
gm_all = 127

abbrev gm_none : ℕ
gm_none = 0

-- The `switch method`.
unfoldable pub for_method : ℕ → Handler
for_method m =
    if m == 1
    then get
    else if m == 2
    then search
    else if m == 4
    then post
    else if m == 8
    then delete
    else if m == 16
    then patch
    else if m == 32
    then put
    else if m == 64
    then head
    else if m == 128
    then search
    else deny

-- `handlerByMethod` for a method and a flag that are numbers; a flag that is not positive is passed
-- over.
unfoldable pub handler_by_method : ℕ → ℕ → Handler
unfolding for_method
handler_by_method method f =
    let flag = if ltb 0 f then f else gm_all in
    if ltb 0 (bit_and flag method) then for_method method else deny

-- A route: its method, its path and its handler.
pub record Route : Type 0 where
  pub method : Bytes
  pub path : Bytes
  pub handler : Handler

-- `Builtin`, without the middlewares and options of the routes.
unfoldable pub builtin : Bytes → ℕ → List Route
unfolding handler_by_method
builtin endpoint flag =
    let all = bytes "/" ++ endpoint in
    let row = all ++ bytes "/:_rk_" in
    record { method = bytes "HEAD"; path = all; handler = handler_by_method 64 flag }
    ∷ record { method = bytes "GET"; path = row; handler = handler_by_method 1 flag }
    ∷ record { method = bytes "GET"; path = all; handler = handler_by_method 2 flag }
    ∷ record { method = bytes "POST"; path = all; handler = handler_by_method 4 flag }
    ∷ record { method = bytes "DELETE"; path = row; handler = handler_by_method 8 flag }
    ∷ record { method = bytes "PATCH"; path = row; handler = handler_by_method 16 flag }
    ∷ record { method = bytes "PUT"; path = row; handler = handler_by_method 32 flag }
    ∷ []

abbrev is_deny : Handler → Bool
is_deny deny = true
is_deny _ = false

-- For any endpoint: with the flag that stands for no method a model has the same routes as with that
-- for all methods, and each has the handler of its method.
builtin-none :
    (endpoint : Bytes)
    → (builtin endpoint gm_none ≡ builtin endpoint gm_all)
      × All (λ r. is_deny r.handler ≡ false) (builtin endpoint gm_none)
unfolding builtin
builtin-none endpoint = (refl, (refl, (refl, (refl, (refl, (refl, (refl, (refl, tt))))))))
