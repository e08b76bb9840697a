-- ===== src/Proxy/Target.antt =====
-- Proxy and reset in whttp/proxy.go: which backend a request goes to. A map is a list of entries
-- in which the first one for a key counts; `parse` is `url.Parse`.
pub mod Hosts
use wgo.Common.{
  split, at_key, ℕ, zero, suc, Bool, false, not, ◌&&◌, ◌||◌, Option, none, some, List, [], ◌∷◌,
  ◌++◌, Bytes, bytes, ◌==◌, if◌then◌else◌,
}
use wgo.Common.Int.{ℤ, pos}
use wgo.Proxy.Header.{Header, is_empty, values, header_set}
use wgo.Proxy.Forward.{trim_space}

-- The options of a backend, as `utils.MustBool` and `utils.MustInt` read them; no ttl reads as 0.
pub record Options : Type 0 where
  pub addrs : List Bytes
  pub enable_cache : Bool
  pub ttl : ℤ
  pub params : List Bytes
  pub headers : List Bytes
  pub extra_headers : List (Bytes × Bytes)

-- The value for an endpoint: a list of addresses, a map of options, or something else.
pub data ProxyCfg : Type 0 where
  addresses : List Bytes → ProxyCfg
  options : Options → ProxyCfg
  other : ProxyCfg

-- `for _, host := range hs { config[strings.TrimSpace(host)] = c }`
unfoldable pub set_hosts : {A : Type 0} → A → List Bytes → List (Bytes × A) → List (Bytes × A)
set_hosts c [] config = config
set_hosts c (host ∷ hs) config = set_hosts c hs ((trim_space host, c) ∷ config)

-- `for h, c := range cfg`, in the order in which the range comes.
unfoldable pub set_all_hosts : {A : Type 0} → List (Bytes × A) → List (Bytes × A) → List (Bytes × A)
set_all_hosts [] config = config
set_all_hosts ((h, c) ∷ cfg) config = set_all_hosts cfg (set_hosts c (split b',' h) config)

abbrev pub HostCfg : Type 0
HostCfg = List (Bytes × ProxyCfg)

-- `config`, which is nil where there is none.
unfoldable pub make_config : List (Bytes × HostCfg) → Option (List (Bytes × HostCfg))
make_config [] = none
make_config (c ∷ cfg) = some (set_all_hosts (c ∷ cfg) [])

-- The second of the parts that `strings.SplitN(path, "/", 3)` gives.
unfoldable pub second : List Bytes → Bytes
second [] = []
second (p ∷ []) = []
second (p ∷ q ∷ rest) = q

unfoldable pub endpoint_of : Bytes → Bytes
endpoint_of path = bytes "/" ++ second (split b'/' path)

abbrev pub or_else : {A : Type 0} → Option A → Option A → Option A
or_else none b = b
or_else (some a) b = some a

abbrev pub or_empty : Option HostCfg → HostCfg
or_empty none = []
or_empty (some c) = c

-- The host's configuration or that of `*`; in it the endpoint's or that of `*`.
unfoldable pub proxy_cfg : List (Bytes × HostCfg) → Bytes → Bytes → Option ProxyCfg
proxy_cfg config host endpoint =
    let config2 = or_empty (or_else (at_key config host) (at_key config (bytes "*"))) in
    or_else (at_key config2 endpoint) (at_key config2 (bytes "*"))

abbrev pub no_options : Options
no_options = record {
  addrs = [];
  enable_cache = false;
  ttl = pos 0;
  params = [];
  headers = [];
  extra_headers = [];
}

-- `addrs[i]`
unfoldable pub get_elem? : {A : Type 0} → ℕ → List A → Option A
get_elem? i [] = none
get_elem? zero (a ∷ as') = some a
get_elem? (suc i) (a ∷ as') = get_elem? i as'

module _ {U : Type 0} (parse : Bytes → Option U) where
  -- `randomAddr`, for the index that was drawn; an address that is no URL gives none.
  unfoldable pub random_addr : ℕ → List Bytes → Option U
  random_addr i addrs = elim (get_elem? i addrs) [ none ↦ none | some a ↦ parse a ]

  -- The backend's URL, if there is one, and the options.
  unfoldable pub target : ℕ → Option ProxyCfg → Option U × Options
  target i none = (none, no_options)
  target i (some other) = (none, no_options)
  target i (some (addresses addrs)) = (random_addr i addrs, no_options)
  target i (some (options o)) = elim o.addrs [
    | [] ↦ (none, no_options)
    | a ∷ as' ↦ (random_addr i (a ∷ as'), o)
  ]

-- A URL's parts that `reset` uses.
pub record Url : Type 0 where
  pub url_scheme : Bytes
  pub url_host : Bytes
  pub url_path : Bytes
  pub raw_query : Bytes

unfoldable pub has_prefix_slash : Bytes → Bool
has_prefix_slash [] = false
has_prefix_slash (b ∷ bs) = b == b'/'

unfoldable pub has_suffix_slash : Bytes → Bool
has_suffix_slash [] = false
has_suffix_slash (b ∷ []) = b == b'/'
has_suffix_slash (b ∷ c ∷ bs) = has_suffix_slash (c ∷ bs)

abbrev pub behind_first : Bytes → Bytes
behind_first [] = []
behind_first (b ∷ bs) = bs

unfoldable pub single_joining_slash : Bytes → Bytes → Bytes
single_joining_slash a b =
    if has_suffix_slash a && has_prefix_slash b
    then a ++ behind_first b
    else if not (has_suffix_slash a) && not (has_prefix_slash b)
    then a ++ (bytes "/" ++ b)
    else a ++ b

-- The director that `reset` makes, on the request's URL and headers.
unfoldable pub direct : Url → Url → Header → Url × Header
direct target url h = (
  record {
    url_scheme = target.url_scheme;
    url_host = target.url_host;
    url_path = single_joining_slash target.url_path url.url_path;
    raw_query =
        if is_empty target.raw_query || is_empty url.raw_query
        then target.raw_query ++ url.raw_query
        else target.raw_query ++ (bytes "&" ++ url.raw_query);
  },
  elim (values h (bytes "User-Agent")) [
    | none ↦ header_set h (bytes "User-Agent") []
    | some vs ↦ h
  ],
)
