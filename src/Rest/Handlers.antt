-- ===== src/Rest/Handlers.antt =====
-- rest/router.go and rest/rest.go: the handlers of a model's routes, which run the hooks of its
-- actions, and what they answer; server/error.go: the errors. A code of an error is not negative.
pub mod Builtin
pub mod Outcomes
pub mod Stages
pub mod Status
mod Tests
use wgo.Common.{
  ℕ, ◌*◌, ◌/◌, Bool, true, false, Option, none, some, List, [], ◌∷◌, ◌++◌, Bytes, bytes, bytes_eq,
  lower, ◌==◌, if◌then◌else◌,
}

pub record ServerError : Type 0 where
  pub code : ℕ
  pub message : Bytes

-- An error: `ErrNoRecord`, a server's, or another with its text.
pub data Failure : Type 0 where
  no_record : Failure
  server : ServerError → Failure
  plain : Bytes → Failure

-- The methods of `Action` that the handlers call.
pub data Hook : Type 0 where
  pre_get will_get on_get did_get post_get : Hook
  pre_search will_search on_search did_search post_search : Hook
  pre_create will_create on_create did_create post_create : Hook
  pre_update will_update on_update did_update post_update : Hook
  pre_delete on_delete post_delete : Hook
  pre_check on_check post_check : Hook
  trigger defer : Hook

-- `getCode`
unfoldable pub code_of : Bool → Bytes → ℕ
code_of true m =
    let method = lower m in
    if bytes_eq method (bytes "delete")
    then 204
    else if bytes_eq method (bytes "put")
    then 201
    else if bytes_eq method (bytes "post")
    then 201
    else 200
code_of false m =
    let method = lower m in
    if bytes_eq method (bytes "get")
    then 404
    else if bytes_eq method (bytes "head")
    then 409
    else 400

-- `returnError` for an error; no code is 0, and every caller but NotOK gives one.
unfoldable pub return_error : Bytes → Failure → ℕ → ServerError
unfolding code_of
return_error method no_record code = record {
  code = if code == 0 then code_of false method * 1000 else code;
  message = bytes "no record";
}
return_error method (server e) code = e
return_error method (plain text) code = record {
  code = if code == 0 then code_of false method * 1000 else code;
  message = text;
}

-- `HTTPStatusCode`, where `has_text` is whether http.StatusText knows a code.
unfoldable pub http_status_code : (ℕ → Bool) → ServerError → ℕ
http_status_code has_text e =
    let sc = e.code / 1000 in if has_text sc then sc else if has_text e.code then e.code else 0

-- What a handler answers: `c.JSON` with a code and a value, or an error.
pub data Answer (V : Type 0) : Type 0 where
  json : ℕ → Option V → Answer V
  failed : ServerError → Answer V

-- The model, and the hooks that have run.
pub record Run (S : Type 0) : Type 0 where
  pub model : S
  pub ran : List Hook

-- `hook` is the model's implementation of its actions: a new state, a value and perhaps an error.
module _ {S V : Type 0} (hook : Hook → S → S × V × Option Failure) (method : Bytes) where
  abbrev pub bad_request : Failure → Answer V
  bad_request e = failed (return_error method e 400000)

  abbrev pub not_ok : Failure → Answer V
  not_ok e = failed (return_error method e 0)

  -- ErrNoRecord is answered by NotFound, another error by InternalError.
  abbrev pub not_found_or_internal : Failure → Answer V
  not_found_or_internal no_record = failed (return_error method no_record 404000)
  not_found_or_internal e = failed (return_error method e 500000)

  abbrev pub internal : Failure → Answer V
  internal e = failed (return_error method e 500000)

  abbrev pub ok : V → Answer V
  ok v = json (code_of true method) (some v)

  abbrev check :
      Run S
      → Hook
      → S × V × Option Failure
      → (Failure → Answer V)
      → (Run S → V → Run S × Answer V)
      → Run S × Answer V
  check r h (m, v, some e) bad next = (record { model = m; ran = r.ran ++ h ∷ [] }, bad e)
  check r h (m, v, none) bad next = next (record { model = m; ran = r.ran ++ h ∷ [] }) v

  -- `if _, err := action.Hook(); err != nil { return bad(err) }` and the code behind it.
  abbrev pub step :
      Run S → Hook → (Failure → Answer V) → (Run S → V → Run S × Answer V) → Run S × Answer V
  step r h bad next = check r h (hook h r.model) bad next

  -- A hook whose error is only logged.
  abbrev pub run : Run S → Hook → Run S × V
  run r h = let (m, v, e) = hook h r.model in (record { model = m; ran = r.ran ++ h ∷ [] }, v)

  -- `defer action.Defer()`
  abbrev deferred : Run S × Answer V → Run S × Answer V
  deferred (r, a) = ((run r defer).0, a)

  abbrev begin : S → Run S
  begin m = record { model = m; ran = [] }

  abbrev pub get_steps : S → Run S × Answer V
  get_steps m = step (begin m) pre_get bad_request λ r _. step r will_get bad_request λ r _.
      step r on_get not_found_or_internal
        λ r _. step r did_get not_ok λ r _. step r post_get not_ok λ r ret. (r, ok ret)

  unfoldable pub rest_get : S → Run S × Answer V
  rest_get m = deferred (get_steps m)

  abbrev pub search_steps : S → Run S × Answer V
  search_steps m = step (begin m) pre_search bad_request λ r _.
      step r will_search bad_request λ r _.
        step r on_search not_found_or_internal
          λ r _. step r did_search not_ok λ r _. step r post_search not_ok λ r rl. (r, ok rl)

  unfoldable pub rest_search : S → Run S × Answer V
  rest_search m = deferred (search_steps m)

  -- The hooks behind a change that is made: their errors are only logged.
  abbrev after_change : Hook → Run S → Run S × Answer V
  after_change post r = let (r1, _) = run r trigger in let (r2, rt) = run r1 post in (r2, ok rt)

  abbrev pub post_steps : S → Run S × Answer V
  post_steps m = step (begin m) pre_create bad_request λ r _. step r will_create bad_request λ r _.
      step r on_create not_ok λ r _. step r did_create not_ok λ r _. after_change post_create r

  unfoldable pub rest_post : S → Run S × Answer V
  rest_post m = deferred (post_steps m)

  abbrev pub patch_steps : S → Run S × Answer V
  patch_steps m = step (begin m) pre_update bad_request λ r _. step r will_update bad_request λ r _.
      step r on_update not_ok λ r _. step r did_update not_ok λ r _. after_change post_update r

  unfoldable pub rest_patch : S → Run S × Answer V
  rest_patch m = deferred (patch_steps m)

  abbrev pub put_steps : S → Run S × Answer V
  put_steps m =
      step (begin m) pre_update bad_request
        λ r _. step r on_update not_ok λ r _. after_change post_update r

  unfoldable pub rest_put : S → Run S × Answer V
  rest_put m = deferred (put_steps m)

  abbrev pub delete_steps : S → Run S × Answer V
  delete_steps m = step (begin m) pre_delete bad_request λ r _.
      step r on_delete not_ok
        λ r _. let (r1, rt) = run r post_delete in let (r2, _) = run r1 trigger in (r2, ok rt)

  unfoldable pub rest_delete : S → Run S × Answer V
  rest_delete m = deferred (delete_steps m)

  -- `positive` is whether a value, an int64, is greater than 0.
  unfoldable pub rest_head : (V → Bool) → S → Run S × Answer V
  unfolding code_of
  rest_head positive m = deferred (
      step (begin m) pre_check bad_request λ r _. step r on_check not_found_or_internal λ r cnt.
        step r post_check internal λ r _. (
          r,
          if positive cnt
              then failed (record { code = code_of false method * 1000; message = bytes "error!" })
              else json (code_of true method) none,
        ))
