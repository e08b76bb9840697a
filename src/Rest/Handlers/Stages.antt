-- ===== src/Rest/Handlers/Stages.antt =====
-- rest/router.go: the hooks that a handler runs, in their order.
use wgo.Common.{◌⊎◌, Option, List, ◌++◌, Bytes}
use wgo.Rest.Handlers.Outcomes.{left, Ended, Stopped}
use wgo.Rest.Handlers.{Failure, Hook, Answer, Run}

module _ {S V : Type 0} (hook : Hook → S → S × V × Option Failure) (method : Bytes) where
  -- The run `r` and then hooks.
  abbrev after : Run S → List Hook → Run S
  after r hs = record { model = left hook method r.model hs; ran = r.ran ++ hs }

  abbrev Runs : Run S → List Hook → (S → V) → Run S × Answer V → Type 0
  Runs r hs value out =
      Ended hook method r.model hs (value r.model) (after r) out
      ⊎ Stopped hook method r.model hs (after r) out
