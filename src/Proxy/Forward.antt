-- ===== src/Proxy/Forward.antt =====
-- doProxy in whttp/proxy.go: the headers of the request that goes to the backend. The request out
-- shares its header map with the request that came in, until the first removal copies it.
-- `contains_token` is `httpguts.HeaderValuesContainsToken`.
pub mod Removal
pub mod Stripped
use wgo.Common.{
  split, join, on_head, lower, ℕ, Bool, ◌&&◌, ◌||◌, Option, none, some, List, [], ◌∷◌, ◌++◌, Bytes,
  bytes, bytes_eq, ◌==◌, if◌then◌else◌,
}
use wgo.Proxy.Header.{
  Header, is_empty, values, all_values, header_get, header_set, header_del, copy_header,
}

abbrev pub hop_headers : List Bytes
hop_headers =
    bytes "Connection"
    ∷ bytes "Proxy-Connection"
    ∷ bytes "Keep-Alive"
    ∷ bytes "Proxy-Authenticate"
    ∷ bytes "Proxy-Authorization"
    ∷ bytes "Te"
    ∷ bytes "Trailer"
    ∷ bytes "Transfer-Encoding"
    ∷ bytes "Upgrade"
    ∷ []

abbrev is_space : ℕ → Bool
is_space b = b == 32 || b == 9 || b == 10 || b == 11 || b == 12 || b == 13

unfoldable pub trim_left : Bytes → Bytes
trim_left [] = []
trim_left (b ∷ bs) = if is_space b then trim_left bs else b ∷ bs

-- Spaces at the end are dropped where nothing but spaces follows.
unfoldable pub trim_right : Bytes → Bytes
trim_right [] = []
trim_right (b ∷ bs) =
    let rest = trim_right bs in if is_empty rest && is_space b then [] else b ∷ rest

-- `strings.TrimSpace` on ASCII
unfoldable pub trim_space : Bytes → Bytes
unfolding trim_left trim_right
trim_space s = trim_right (trim_left s)

-- `req.Header`, and `outreq.Header` once it is a map of its own.
pub record Shared : Type 0 where
  pub original : Header
  pub copied : Option Header

-- `outreq.Header`
abbrev pub out : Shared → Header
out s = elim s.copied [ none ↦ s.original | some h ↦ h ]

-- `if !copiedHeaders { … }`, then a removal.
unfoldable pub copy_and_del : Shared → Bytes → Shared
copy_and_del s f = elim s.copied [
  | none ↦ record s { copied = some (header_del (copy_header [] s.original) f) }
  | some h ↦ record s { copied = some (header_del h f) }
]

-- `outreq.Header.Set`, on whichever map it is.
unfoldable pub set_out : Shared → Bytes → Bytes → Shared
set_out s k v = elim s.copied [
  | none ↦ record s { original = header_set s.original k v }
  | some h ↦ record s { copied = some (header_set h k v) }
]

-- `for _, f := range strings.Split(conn, ",")`
unfoldable pub del_listed : Shared → List Bytes → Shared
del_listed s [] = s
del_listed s (f ∷ fs) =
    let name = trim_space f in del_listed (if is_empty name then s else copy_and_del s name) fs

unfoldable pub strip_connection : Shared → Shared
strip_connection s =
    let conn = header_get (out s) (bytes "Connection") in
    if is_empty conn then s else del_listed s (split b',' conn)

unfoldable pub strip_one : Shared → Bytes → Shared
strip_one s h =
    let hv = header_get (out s) h in
    if is_empty hv || bytes_eq h (bytes "Te") && bytes_eq hv (bytes "trailers")
    then s
    else copy_and_del s h

-- `for _, h := range hopHeaders`
unfoldable pub strip_hop : Shared → List Bytes → Shared
strip_hop s [] = s
strip_hop s (h ∷ hs) = strip_hop (strip_one s h) hs

unfoldable pub set_extra : Shared → List (Bytes × Bytes) → Shared
set_extra s [] = s
set_extra s ((h, v) ∷ rest) = set_extra (set_out s h v) rest

-- What `doProxy` reads from the context besides the headers.
pub record Caller : Type 0 where
  pub request_id : Bytes
  pub depth : Bytes
  pub client_ip : Bytes
  pub scheme : Bytes

unfoldable pub set_request_id : Caller → Shared → Shared
set_request_id c s =
    if is_empty c.request_id
    then s
    else set_out (set_out s (bytes "X-Request-Id") c.request_id) (bytes "X-WGO-Depth") c.depth

unfoldable pub set_upgrade : Bytes → Shared → Shared
set_upgrade up s =
    if is_empty up
    then s
    else set_out (set_out s (bytes "Connection") (bytes "Upgrade")) (bytes "Upgrade") up

-- `clientIP`, behind the prior list if there is one.
unfoldable pub forwarded_for : Bytes → Header → Bytes
forwarded_for ip h = elim (values h (bytes "X-Forwarded-For")) [
  | none ↦ ip
  | some prior ↦ join (bytes ", ") prior ++ (bytes ", " ++ ip)
]

unfoldable pub set_forwarded : Caller → Shared → Shared
set_forwarded c s =
    let s' =
      if is_empty c.client_ip
      then s
      else set_out s (bytes "X-Forwarded-For") (forwarded_for c.client_ip (out s)) in
    set_out s' (bytes "X-Forwarded-Proto") c.scheme

module _ (contains_token : List Bytes → Bytes → Bool) where
  unfoldable pub upgrade_type : Header → Bytes
  upgrade_type h =
      if contains_token (all_values (values h (bytes "Connection"))) (bytes "Upgrade")
      then lower (header_get h (bytes "Upgrade"))
      else []

  -- From the headers that `rp.Director` leaves to the ones sent.
  unfoldable pub request_headers : Caller → List (Bytes × Bytes) → Header → Shared
  request_headers c extra h =
      let up = upgrade_type h in
      let s = strip_hop (strip_connection (record { original = h; copied = none })) hop_headers in
      set_forwarded c (set_upgrade up (set_request_id c (set_extra s extra)))
