-- ===== src/Rest/Handlers/Status.antt =====
-- rest/rest.go and server/error.go: the statuses of the errors that the handlers answer.
use wgo.Common.{
  ℕ, ◌*◌, ◌/◌, ◌≡◌, refl, ap, ◌∙◌, ◌⊎◌, inl, inr, Bool, true, false, Option, none, some, Bytes,
  bytes, bytes_eq, lower, [], ◌∷◌, ◌++◌, ◌==◌, ◌||◌, if◌then◌else◌,
}
use wgo.Rest.Handlers.{
  ServerError, Failure, no_record, server, plain, Hook, pre_get, will_get, on_get, did_get,
  post_get, pre_search, will_search, on_search, did_search, post_search, pre_create, will_create,
  on_create, did_create, pre_update, will_update, on_update, did_update, pre_delete, on_delete,
  pre_check, on_check, post_check, code_of, return_error, http_status_code, Answer, json, failed,
  Run, rest_get, rest_search, rest_post, rest_patch, rest_put, rest_delete, rest_head, check, step,
  begin, bad_request, not_ok, not_found_or_internal, internal,
}
use wgo.Rest.Handlers.Outcomes.{Kind, get, search, post, patch, put, delete, handle}

-- Bad Request, Not Found, Conflict and Internal Server Error.
abbrev pub is_error_status : ℕ → Bool
is_error_status n = n == 400 || n == 404 || n == 409 || n == 500

module _ {S V : Type 0} (has_text : ℕ → Bool) (hook : Hook → S → S × V × Option Failure)
    (method : Bytes) where
  -- An error of an answer is a server's error that a hook gave, or one with such a status.
  abbrev pub Told : Answer V → Type 0
  Told (json code v) = Unit
  Told (failed e) =
      ((h : Hook) × (m : S) × ((hook h m).2 ≡ some (server e)))
      ⊎ (is_error_status (http_status_code has_text e) ≡ true)

  abbrev Tells : (Failure → Answer V) → Type 0
  Tells bad = (h : Hook) (m : S) (f : Failure) → (hook h m).2 ≡ some f → Told (bad f)

  Told-step :
      (r : Run S) (h : Hook) (bad : Failure → Answer V) (next : Run S → V → Run S × Answer V)
      → Tells bad
      → ((r : Run S) (v : V) → Told (next r v).1)
      → Told (step hook method r h bad next).1
  Told-step r h bad next tells go = from (hook h r.model) refl
    where
      from :
          (out : S × V × Option Failure)
          → hook h r.model ≡ out
          → Told (check hook method r h out bad next).1
      from (m, v, some f) e = tells h r.model f (ap (λ o. o.2) e)
      from (m, v, none) e = go (record { model = m; ran = r.ran ++ h ∷ [] }) v

  module _ (knows : (n : ℕ) → is_error_status n ≡ true → has_text n ≡ true) where
    http_status_code-thousands :
        (e : ServerError)
        → has_text (e.code / 1000) ≡ true
        → http_status_code has_text e ≡ e.code / 1000
    unfolding http_status_code
    http_status_code-thousands e is =
        ap (λ b. if b then e.code / 1000 else if has_text e.code then e.code else 0) is

    Told-code : (e : ServerError) → is_error_status (e.code / 1000) ≡ true → Told (failed e)
    Told-code e is =
        inr (
          ap (λ n. is_error_status n) (http_status_code-thousands e (knows (e.code / 1000) is))
          ∙ is)

    code_of-status : is_error_status (code_of false method * 1000 / 1000) ≡ true
    unfolding code_of
    code_of-status =
        elim (bytes_eq (lower method) (bytes "get"))
          as (λ b.
            is_error_status (
              (if b then 404 else if bytes_eq (lower method) (bytes "head") then 409 else 400)
              * 1000
              / 1000)
            ≡ true) [
              | true ↦ refl
              | false ↦
                  elim (bytes_eq (lower method) (bytes "head"))
                    as (λ b. is_error_status ((if b then 409 else 400) * 1000 / 1000) ≡ true) [
                      | true ↦ refl
                      | false ↦ refl
                    ]
            ]

    return_error-Tells :
        (code : ℕ)
        → is_error_status ((if code == 0 then code_of false method * 1000 else code) / 1000) ≡ true
        → Tells (λ f. failed (return_error method f code))
    unfolding return_error
    return_error-Tells code is h m no_record e = Told-code _ is
    return_error-Tells code is h m (server s) e = inl (h, m, e)
    return_error-Tells code is h m (plain t) e = Told-code _ is

    bad_request-Tells : Tells (bad_request hook method)
    bad_request-Tells = return_error-Tells 400000 refl

    not_ok-Tells : Tells (not_ok hook method)
    not_ok-Tells = return_error-Tells 0 code_of-status

    internal-Tells : Tells (internal hook method)
    internal-Tells = return_error-Tells 500000 refl

    not_found_or_internal-Tells : Tells (not_found_or_internal hook method)
    not_found_or_internal-Tells h m no_record e = return_error-Tells 404000 refl h m no_record e
    not_found_or_internal-Tells h m (server s) e = internal-Tells h m (server s) e
    not_found_or_internal-Tells h m (plain t) e = internal-Tells h m (plain t) e

    -- For any model with its hooks, where http.StatusText knows the statuses 400, 404, 409 and 500:
    -- each error that a handler answers is either a server's error that a hook has given, or one whose
    -- status is 400, 404, 409 or 500.
    pub handle-Told :
        (positive : V → Bool) (m : S)
        → ((k : Kind) → Told (handle hook method k m).1) × Told (rest_head hook method positive m).1
    unfolding rest_get rest_search rest_post rest_patch rest_put rest_delete rest_head code_of
    handle-Told positive m = (by_kind, head)
      where
        start : Run S
        start = begin hook method m

        by_kind : (k : Kind) → Told (handle hook method k m).1
        by_kind get = Told-step start pre_get _ _ bad_request-Tells λ r _.
            Told-step r will_get _ _ bad_request-Tells λ r _.
              Told-step r on_get _ _ not_found_or_internal-Tells λ r _.
                Told-step r did_get _ _ not_ok-Tells
                  λ r _. Told-step r post_get _ _ not_ok-Tells λ r v. tt
        by_kind search = Told-step start pre_search _ _ bad_request-Tells λ r _.
            Told-step r will_search _ _ bad_request-Tells λ r _.
              Told-step r on_search _ _ not_found_or_internal-Tells λ r _.
                Told-step r did_search _ _ not_ok-Tells
                  λ r _. Told-step r post_search _ _ not_ok-Tells λ r v. tt
        by_kind post = Told-step start pre_create _ _ bad_request-Tells λ r _.
            Told-step r will_create _ _ bad_request-Tells λ r _.
              Told-step r on_create _ _ not_ok-Tells
                λ r _. Told-step r did_create _ _ not_ok-Tells λ r v. tt
        by_kind patch = Told-step start pre_update _ _ bad_request-Tells λ r _.
            Told-step r will_update _ _ bad_request-Tells λ r _.
              Told-step r on_update _ _ not_ok-Tells
                λ r _. Told-step r did_update _ _ not_ok-Tells λ r v. tt
        by_kind put =
            Told-step start pre_update _ _ bad_request-Tells
              λ r _. Told-step r on_update _ _ not_ok-Tells λ r v. tt
        by_kind delete =
            Told-step start pre_delete _ _ bad_request-Tells
              λ r _. Told-step r on_delete _ _ not_ok-Tells λ r v. tt

        counted :
            (r : Run S) (b : Bool)
            → Told (
                if b
                then failed
                    (record { code = code_of false method * 1000; message = bytes "error!" })
                else json (code_of true method) none)
        counted r true = Told-code _ code_of-status
        counted r false = tt

        head : Told (rest_head hook method positive m).1
        head = Told-step start pre_check _ _ bad_request-Tells λ r _.
            Told-step r on_check _ _ not_found_or_internal-Tells
              λ r cnt. Told-step r post_check _ _ internal-Tells λ r _. counted r (positive cnt)
