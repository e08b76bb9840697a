-- ===== src/Rest/Handlers/Outcomes.antt =====
-- rest/router.go: the hooks of the handlers, and the two ways in which a handler ends.
use wgo.Common.{◌≡◌, ◌⊎◌, Bool, true, false, Option, none, some, List, [], ◌∷◌, ◌++◌, Bytes}
use wgo.Rest.Handlers.{
  Failure, Hook, pre_get, will_get, on_get, did_get, post_get, pre_search, will_search, on_search,
  did_search, post_search, pre_create, will_create, on_create, did_create, post_create, pre_update,
  will_update, on_update, did_update, post_update, pre_delete, on_delete, post_delete, trigger,
  defer, Answer, Run, rest_get, rest_search, rest_post, rest_patch, rest_put, rest_delete, ok,
  bad_request, not_ok, not_found_or_internal,
}

-- The handlers that run hooks and answer with a value.
pub data Kind : Type 0 where
  get search post patch put delete : Kind

-- The hooks of a handler in their order.
abbrev pub hooks_of : Kind → List Hook
hooks_of get = pre_get ∷ will_get ∷ on_get ∷ did_get ∷ post_get ∷ []
hooks_of search = pre_search ∷ will_search ∷ on_search ∷ did_search ∷ post_search ∷ []
hooks_of post = pre_create ∷ will_create ∷ on_create ∷ did_create ∷ trigger ∷ post_create ∷ []
hooks_of patch = pre_update ∷ will_update ∷ on_update ∷ did_update ∷ trigger ∷ post_update ∷ []
hooks_of put = pre_update ∷ on_update ∷ trigger ∷ post_update ∷ []
hooks_of delete = pre_delete ∷ on_delete ∷ post_delete ∷ trigger ∷ []

-- The hook whose value is the answer, and the hooks before it.
abbrev pub value_hook : Kind → Hook
value_hook get = post_get
value_hook search = post_search
value_hook post = post_create
value_hook patch = post_update
value_hook put = post_update
value_hook delete = post_delete

abbrev pub before_value : Kind → List Hook
before_value get = pre_get ∷ will_get ∷ on_get ∷ did_get ∷ []
before_value search = pre_search ∷ will_search ∷ on_search ∷ did_search ∷ []
before_value post = pre_create ∷ will_create ∷ on_create ∷ did_create ∷ trigger ∷ []
before_value patch = pre_update ∷ will_update ∷ on_update ∷ did_update ∷ trigger ∷ []
before_value put = pre_update ∷ on_update ∷ trigger ∷ []
before_value delete = pre_delete ∷ on_delete ∷ []

-- The hooks whose errors are only logged.
abbrev pub is_logged : Hook → Bool
is_logged trigger = true
is_logged post_create = true
is_logged post_update = true
is_logged post_delete = true
is_logged _ = false

module _ {S V : Type 0} (hook : Hook → S → S × V × Option Failure) (method : Bytes) where
  abbrev pub handle : Kind → S → Run S × Answer V
  handle get = rest_get hook method
  handle search = rest_search hook method
  handle post = rest_post hook method
  handle patch = rest_patch hook method
  handle put = rest_put hook method
  handle delete = rest_delete hook method

  -- The answer to an error of a hook.
  abbrev pub refused : Hook → Failure → Answer V
  refused pre_get e = bad_request hook method e
  refused will_get e = bad_request hook method e
  refused pre_search e = bad_request hook method e
  refused will_search e = bad_request hook method e
  refused pre_create e = bad_request hook method e
  refused will_create e = bad_request hook method e
  refused pre_update e = bad_request hook method e
  refused will_update e = bad_request hook method e
  refused pre_delete e = bad_request hook method e
  refused on_get e = not_found_or_internal hook method e
  refused on_search e = not_found_or_internal hook method e
  refused _ e = not_ok hook method e

  -- The model behind hooks.
  abbrev pub left : S → List Hook → S
  left m [] = m
  left m (h ∷ hs) = left (hook h m).0 hs

  -- None of the hooks gives an error that is not only logged.
  abbrev pub Passed : S → List Hook → Type 0
  Passed m [] = Unit
  Passed m (h ∷ hs) = ((is_logged h ≡ true) ⊎ ((hook h m).2 ≡ none)) × Passed (hook h m).0 hs

  -- All of the hooks pass.
  pub record Ended (m : S) (hs : List Hook) (v : V) (state : List Hook → Run S)
      (out : Run S × Answer V) : Type 0 where
    pub passed : Passed m hs
    pub state_of_all : out.0 ≡ state hs
    pub answered : out.1 ≡ ok hook method v

  -- The hooks `done` pass, and the one behind them fails.
  pub record Stopped (m : S) (hs : List Hook) (state : List Hook → Run S) (out : Run S × Answer V)
      : Type 0 where
    pub done : List Hook
    pub failing : Hook
    pub rest : List Hook
    pub error : Failure
    pub split_as : done ++ failing ∷ rest ≡ hs
    pub passed : Passed m done
    pub not_logged : is_logged failing ≡ false
    pub fails : (hook failing (left m done)).2 ≡ some error
    pub state_of_done : out.0 ≡ state (done ++ failing ∷ [])
    pub answered : out.1 ≡ refused failing error

  -- The model and the hooks that have run, Defer the last.
  abbrev pub with_defer : S → List Hook → Run S
  with_defer m hs = record { model = (hook defer (left m hs)).0; ran = hs ++ defer ∷ [] }

  -- The value of the answer when all hooks pass.
  abbrev pub value_at : Kind → S → V
  value_at k m = (hook (value_hook k) (left m (before_value k))).1
