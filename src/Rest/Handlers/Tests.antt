-- ===== src/Rest/Handlers/Tests.antt =====
-- rest/router.go: runs of the handlers, and the theorems at a concrete model.
use wgo.Common.{
  ℕ, ◌+◌, ◌≡◌, refl, ap, Bool, Option, none, some, [], ◌∷◌, bytes, bytes_eq, ltb, ◌==◌, ◌||◌,
}
use wgo.Rest.Handlers.{
  Failure, no_record, plain, Hook, pre_get, will_get, on_get, did_update, defer, json, failed,
  return_error, rest_get, rest_patch, rest_put, rest_head, code_of,
}
use wgo.Rest.Handlers.Outcomes.{Kind, handle}
use wgo.Rest.Handlers.Status.{is_error_status, Told, handle-Told}

-- A model without rows, whose updates fail when they are done.
abbrev no_rows : Hook → ℕ → ℕ × ℕ × Option Failure
no_rows on_get m = (m, 0, some no_record)
no_rows did_update m = (m, 0, some (plain (bytes "late")))
no_rows _ m = (m + 1, m, none)

abbrev known : ℕ → Bool
known n = is_error_status n || n == 200

get_stops : (rest_get no_rows (bytes "GET") 0).0.ran ≡ pre_get ∷ will_get ∷ on_get ∷ defer ∷ []
unfolding rest_get
get_stops = refl

get_not_found :
    (rest_get no_rows (bytes "GET") 0).1
    ≡ failed (record { code = 404000; message = bytes "no record" })
unfolding rest_get return_error
get_not_found = refl

-- PUT does not run the hook that makes PATCH fail.
patch_fails :
    (rest_patch no_rows (bytes "PATCH") 0).1
    ≡ failed (record { code = 400000; message = bytes "late" })
unfolding rest_patch return_error code_of bytes_eq
patch_fails = refl

put_succeeds : (rest_put no_rows (bytes "PUT") 0).1 ≡ json 201 (some 3)
unfolding rest_put code_of bytes_eq
put_succeeds = refl

handle-Told_example :
    ((k : Kind) → Told known no_rows (bytes "GET") (handle no_rows (bytes "GET") k 0).1)
    × Told known no_rows (bytes "GET") (rest_head no_rows (bytes "GET") (λ n. ltb 0 n) 0).1
handle-Told_example =
    handle-Told known no_rows (bytes "GET") (λ n e. ap (λ b. b || n == 200) e) (λ n. ltb 0 n) 0

head_conflict :
    (rest_head no_rows (bytes "HEAD") (λ n. ltb 0 n) 0).1
    ≡ failed (record { code = 409000; message = bytes "error!" })
unfolding rest_head code_of bytes_eq
head_conflict = refl
