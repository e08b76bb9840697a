-- ===== src/Proxy/Answer.antt =====
-- doProxy and copyFastHeader in whttp/proxy.go: the headers of the backend's response on their way
-- to the client. The response's own headers are taken as one map of names to values.
use wgo.Common.{split, ℕ, Bool, ◌||◌, List, [], ◌∷◌, Bytes, bytes, bytes_eq, ◌==◌, if◌then◌else◌}
pub mod Copied
use wgo.Proxy.Header.{Header, is_empty, header_get, header_set, header_del, add_all}
use wgo.Proxy.Forward.{hop_headers, trim_space}

abbrev pub skip_headers : List Bytes
skip_headers = bytes "Date" ∷ bytes "Server" ∷ bytes "Content-Length" ∷ []

-- The client's origin is allowed.
unfoldable pub set_cors : Bytes → Header → Header
set_cors origin h =
    if is_empty origin
    then h
    else header_set (header_set h (bytes "Access-Control-Allow-Origin") origin)
        (bytes "Access-Control-Allow-Credentials") (bytes "true")

-- The answer to OPTIONS, `asked` being the headers that the client asks for.
unfoldable pub set_options : Bytes → Header → Header
set_options asked h =
    let h' =
      header_set (header_set h (bytes "Access-Control-Max-Age") (bytes "86400"))
        (bytes "Access-Control-Allow-Methods") (bytes "GET, POST, PUT, PATCH, DELETE, OPTIONS") in
    if is_empty asked then h' else header_set h' (bytes "Access-Control-Allow-Headers") asked

-- `for _, f := range strings.Split(conn, ",")`
unfoldable pub del_named : Header → List Bytes → Header
del_named h [] = h
del_named h (f ∷ fs) =
    let name = trim_space f in del_named (if is_empty name then h else header_del h name) fs

unfoldable pub del_each : Header → List Bytes → Header
del_each h [] = h
del_each h (k ∷ ks) = del_each (header_del h k) ks

unfoldable pub del_connection : Header → Header
del_connection h =
    let conn = header_get h (bytes "Connection") in
    if is_empty conn then h else del_named h (split b',' conn)

-- `copyFastHeader`: each value of a name is set, so that the last one is left, but for the two
-- names whose values are added.
unfoldable pub set_each : Header → Bytes → List Bytes → Header
set_each dst k [] = dst
set_each dst k (v ∷ vs) = set_each (header_set dst k v) k vs

abbrev pub is_added : Bytes → Bool
is_added k = bytes_eq k (bytes "Set-Cookie") || bytes_eq k (bytes "Cache-Control")

unfoldable pub copy_fast_header : Header → Header → Header
copy_fast_header dst [] = dst
copy_fast_header dst ((k, vs) ∷ src) =
    copy_fast_header (if is_added k then add_all dst k vs else set_each dst k vs) src

-- What is written for a response: the status and the headers; a response with status 101 goes to
-- `handleUpgradeResponse` with its headers.
pub data Written : Type 0 where
  written : ℕ → Header → Written
  upgraded : Header → Written

-- From the response of the backend without trailers, for a proxy with no `ModifyResponse`; `dst` are the headers of
-- the response to the client so far, `out` those of the request sent.
unfoldable pub answer_headers : Bytes → Header → ℕ → Header → Header → Written
answer_headers method out status dst res =
    let h = set_cors (header_get out (bytes "Origin")) (header_del res (bytes "Content-Length")) in
    if bytes_eq method (bytes "OPTIONS")
    then written 200 (
        copy_fast_header dst
          (set_options (header_get out (bytes "Access-Control-Request-Headers")) h))
    else if status == 101
    then upgraded h
    else written status
        (copy_fast_header dst (del_each (del_each (del_connection h) hop_headers) skip_headers))
