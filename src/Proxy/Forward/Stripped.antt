-- ===== src/Proxy/Forward/Stripped.antt =====
-- doProxy in whttp/proxy.go: the first values of the hop-by-hop headers in the request to the backend.
use wgo.Common.{◌≡◌, ◌⊎◌, false, List, [], Bytes, bytes, bytes_eq, All}
use wgo.Proxy.Header.{Header, canonical}

-- What the steps behind the removals need to know of a hop-by-hop header's name.
abbrev Known : Bytes → Type 0
Known h =
    (canonical h ≡ h)
    × (bytes_eq (canonical (bytes "X-Request-Id")) h ≡ false)
    × (bytes_eq (canonical (bytes "X-WGO-Depth")) h ≡ false)
    × (bytes_eq (canonical (bytes "X-Forwarded-For")) h ≡ false)
    × (bytes_eq (canonical (bytes "X-Forwarded-Proto")) h ≡ false)

-- The first value of a hop-by-hop header in the request sent, as Header.Get gives it: empty or
-- absent, or trailers for Te; for an upgrade the protocol and the connection's token.
abbrev pub Hop : Bytes → Bytes → Bytes → Type 0
Hop up h v =
    (v ≡ [])
    ⊎ ((h ≡ bytes "Te") × (v ≡ bytes "trailers"))
    ⊎ ((h ≡ bytes "Connection") × (v ≡ bytes "Upgrade"))
    ⊎ ((h ≡ bytes "Upgrade") × (v ≡ up))

-- No name among the extra headers is that of `h`.
abbrev pub Apart : List (Bytes × Bytes) → Bytes → Type 0
Apart extra h = All (λ (p : Bytes × Bytes). bytes_eq (canonical p.0) (canonical h) ≡ false) extra
