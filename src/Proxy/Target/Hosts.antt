-- ===== src/Proxy/Target/Hosts.antt =====
-- Proxy in whttp/proxy.go: which configuration a request's host and endpoint have.
use wgo.Common.{
  split, ◌≡◌, refl, ap, ◌∙◌, Bool, false, ◌||◌, Option, none, some, List, [], ◌∷◌, Bytes, bytes,
  bytes_eq, if◌then◌else◌, at_key, arith,
}
use wgo.Proxy.Forward.{trim_space}
use wgo.Proxy.Target.{
  ProxyCfg, HostCfg, set_hosts, set_all_hosts, make_config, or_else, or_empty, proxy_cfg,
}

-- Whether the host is one of the given ones, which may have spaces around them.
abbrev pub names_host : List Bytes → Bytes → Bool
names_host [] host = false
names_host (h ∷ hs) host = bytes_eq (trim_space h) host || names_host hs host

module _ {A : Type 0} where
  -- The value of the last entry that lists the host between commas.
  unfoldable pub last_entry : List (Bytes × A) → Bytes → Option A → Option A
  last_entry [] host old = old
  last_entry ((h, c) ∷ cfg) host old =
      last_entry cfg host (if names_host (split b',' h) host then some c else old)

  at_key-set_hosts :
      (c : A) (hs : List Bytes) (config : List (Bytes × A)) (host : Bytes)
      → at_key (set_hosts c hs config) host
        ≡ (if names_host hs host then some c else at_key config host)
  unfolding set_hosts at_key
  at_key-set_hosts c [] config host = refl
  at_key-set_hosts c (h ∷ hs) config host =
      ground (arith, at_key-set_hosts c hs ((trim_space h, c) ∷ config) host)

  pub at_key-set_all_hosts :
      (cfg config : List (Bytes × A)) (host : Bytes)
      → at_key (set_all_hosts cfg config) host ≡ last_entry cfg host (at_key config host)
  unfolding set_all_hosts last_entry
  at_key-set_all_hosts [] config host = refl
  at_key-set_all_hosts ((h, c) ∷ cfg) config host =
      at_key-set_all_hosts cfg (set_hosts c (split b',' h) config) host
      ∙ ap (last_entry cfg host) (at_key-set_hosts c (split b',' h) config host)

abbrev pub endpoint_cfg : HostCfg → Bytes → Option ProxyCfg
endpoint_cfg c endpoint = or_else (at_key c endpoint) (at_key c (bytes "*"))

-- For a configuration with an entry at least, whose hosts are texts with commas and spaces, and a
-- request: of the entries in the order the loop takes them, the last that lists the request's host
-- counts, or if none does the last that lists `*`; in it the value for the endpoint, or if there is
-- none that for `*`.
pub proxy_cfg-make_config :
    (entry : Bytes × HostCfg) (cfg : List (Bytes × HostCfg)) (host endpoint : Bytes)
    → (config : List (Bytes × HostCfg)) × (make_config (entry ∷ cfg) ≡ some config)
      × (proxy_cfg config host endpoint
          ≡ endpoint_cfg
              (or_empty (
                or_else
                  (last_entry (entry ∷ cfg) host none)
                  (last_entry (entry ∷ cfg) (bytes "*") none)))
              endpoint)
unfolding make_config proxy_cfg at_key
proxy_cfg-make_config entry cfg host endpoint =
    let config = set_all_hosts (entry ∷ cfg) [] in
    (
      config,
      refl,
      ap
            (λ (o : Option HostCfg).
              endpoint_cfg (or_empty (or_else o (at_key config (bytes "*")))) endpoint)
            (at_key-set_all_hosts (entry ∷ cfg) [] host)
          ∙ ap
              (λ (o : Option HostCfg).
                endpoint_cfg (or_empty (or_else (last_entry (entry ∷ cfg) host none) o)) endpoint)
              (at_key-set_all_hosts (entry ∷ cfg) [] (bytes "*")),
    )
