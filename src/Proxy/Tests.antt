-- ===== src/Proxy/Tests.antt =====
-- Requests and responses for the tests, and the theorems on the proxy at them.
use wgo.Proxy.Target.Hosts.{proxy_cfg-make_config, endpoint_cfg, last_entry}
use wgo.Common.{
  set, get_or, split, ℕ, ◌+◌, ◌≡◌, ◌⊎◌, refl, Bool, true, false, Option, none, some, List, [], ◌∷◌,
  ◌++◌, Bytes, bytes, bytes_eq, arith, length, if◌then◌else◌,
}
use wgo.Common.Int.{pos}
use wgo.Cache.Store.{Cache, new_cache}
use wgo.Proxy.Header.{Header, canonical, values, remove, put, header_get, header_set, IsCanonical}
use wgo.Proxy.Forward.{trim_right, trim_left, trim_space, Caller}
use wgo.Proxy.Answer.{answer_headers}
use wgo.Proxy.Answer.Copied.{answer_headers-copied, copied, among, headers_of, stripped_names}
use wgo.Proxy.Target.{
  or_else, or_empty, make_config, Options, ProxyCfg, HostCfg, direct, proxy_cfg,
  single_joining_slash, has_prefix_slash, has_suffix_slash,
}
use wgo.Proxy.Caching.{Incoming, Responses, Served, Backend, proxy}
use wgo.Proxy.Copying.{body_read, copy_buffer}
use wgo.Proxy.Copying.Whole.{TakesAll, Copied, copy_buffer-Copied}
use wgo.Proxy.Latency.{Writer, Reach, start, after_write, new_writer, write, running}
use wgo.Proxy.Latency.Flushing.{waits, Reach-flushed}

-- Headers.

abbrev never : List Bytes → Bytes → Bool
never vs t = false

abbrev caller : Caller
caller = record {
  request_id = bytes "r";
  depth = bytes "1";
  client_ip = bytes "1.2.3.4";
  scheme = bytes "http";
}

abbrev asked : Header
asked =
    (bytes "Connection", bytes "close, X-A" ∷ [])
    ∷ (bytes "X-A", bytes "1" ∷ [])
    ∷ (bytes "Te", bytes "trailers" ∷ [])
    ∷ []

abbrev extra : List (Bytes × Bytes)
extra = (bytes "x-extra", bytes "2") ∷ []

abbrev reply : Header
reply = (bytes "Vary", bytes "A" ∷ bytes "B" ∷ []) ∷ (bytes "Server", bytes "s" ∷ []) ∷ []

reply-IsCanonical : IsCanonical reply
unfolding canonical values bytes_eq
reply-IsCanonical = (refl, refl, (refl, refl, tt))

not_options : bytes_eq (bytes "GET") (bytes "OPTIONS") ≡ false
unfolding bytes_eq
not_options = refl

no_origin : header_get [] (bytes "Origin") ≡ []
unfolding header_get values
no_origin = refl

no_connection : header_get reply (bytes "Connection") ≡ []
unfolding header_get values canonical bytes_eq
no_connection = refl

answer_headers-copied_example :
    values (headers_of (answer_headers (bytes "GET") [] 200 [] reply)) (bytes "Vary")
    ≡ copied
        (bytes "Vary")
        (values [] (bytes "Vary"))
        (if among stripped_names (bytes "Vary") then none else values reply (bytes "Vary"))
answer_headers-copied_example =
    answer_headers-copied (bytes "GET") [] [] reply 200 (bytes "Vary") reply-IsCanonical not_options
      refl no_origin no_connection

-- The cache: two requests whose headers differ.

abbrev user_options : Options
user_options = record {
  addrs = bytes "b" ∷ [];
  enable_cache = true;
  ttl = pos 0;
  params = [];
  headers = bytes "X-User" ∷ bytes "X-App" ∷ [];
  extra_headers = [];
}

abbrev config : List (Bytes × HostCfg)
config = (bytes "*", (bytes "*", ProxyCfg.options user_options) ∷ []) ∷ []

abbrev from_header : (Bytes → Bytes) → Incoming
from_header h = record {
  is_rpc = false;
  host = bytes "h";
  path = bytes "/p/q";
  method = bytes "GET";
  engine = bytes "e";
  encoding = [];
  query = λ n. [];
  header = h;
}

-- X-User is ab and X-App is c, or X-User is a and X-App is bc.
abbrev ab_c : Incoming
ab_c = from_header (λ n. if bytes_eq n (bytes "X-User") then bytes "ab" else bytes "c")

abbrev a_bc : Incoming
a_bc = from_header (λ n. if bytes_eq n (bytes "X-User") then bytes "a" else bytes "bc")

abbrev one_hash : Bytes → ℕ
one_hash k = 7

abbrev as_url : Bytes → Option Bytes
as_url a = some a

-- A memory of numbers, in which an object is a place; the response is the first.
abbrev places : Responses ℕ (List ℕ)
places = record {
  copy_to = λ from to m. set m to (get_or m from 0);
  make = λ m. (length m, m ++ 0 ∷ []);
}

abbrev answers : ℕ → Backend Bytes (List ℕ)
answers r u h m = (set m 0 r, true)

abbrev first_exchange : Cache ℕ × List ℕ × Served ℕ
first_exchange =
    proxy one_hash places 0 as_url 10 11 (some config) 0 (answers 5) ab_c (0 ∷ []) new_cache

abbrev second_exchange : Cache ℕ × List ℕ × Served ℕ
second_exchange =
    proxy one_hash places 0 as_url 12 13 (some config) 0 (answers 6) a_bc (0 ∷ 5 ∷ [])
      first_exchange.0

-- Copying a body.

abbrev append_to : Bytes → Bytes → ℕ × Option ℕ × Bytes
append_to bs w = (length bs, none, w ++ bs)

append_to-TakesAll : TakesAll append_to (λ w. w)
append_to-TakesAll = record { counts = λ bs w. refl; no_error = λ bs w. refl; shows = λ bs w. refl }

copy_buffer-Copied_example :
    Copied append_to
      (λ w. w)
      (copy_buffer body_read append_to 6 2 (bytes "abcde") (bytes "x"))
      0
      (bytes "x")
      (bytes "abcde")
copy_buffer-Copied_example =
    copy_buffer-Copied append_to (λ w. w) 6 2 (bytes "abcde") (bytes "x") append_to-TakesAll
      (omega arith)

-- A writer that flushes by a timer.

abbrev one_write : Writer
one_write = record (new_writer false) {
  timer = running;
  flush_pending = true;
  buffered = bytes "a";
}

Reach-one_write : Reach false one_write (bytes "a")
unfolding write
Reach-one_write = after_write (bytes "a") start refl

Reach-flushed_example :
    (one_write.flushed ++ one_write.buffered ≡ bytes "a")
    × (false ≡ true → one_write.buffered ≡ [])
    × (one_write.is_stopped ≡ false
        → (one_write.buffered ≡ []) ⊎ (waits one_write.timer + one_write.flushers ≡ 1))
Reach-flushed_example = Reach-flushed false one_write (bytes "a") Reach-one_write

-- The director.

direct_run :
    (direct
      (record {
        url_scheme = bytes "http";
        url_host = bytes "b";
        url_path = bytes "/base/";
        raw_query = bytes "k=1";
      })
      (record { url_scheme = []; url_host = []; url_path = bytes "/p"; raw_query = bytes "x=2" })
      []).0
    ≡ record {
      url_scheme = bytes "http";
      url_host = bytes "b";
      url_path = bytes "/base/p";
      raw_query = bytes "k=1&x=2";
    }
unfolding direct single_joining_slash has_prefix_slash has_suffix_slash values header_set put remove
    canonical
direct_run = refl

-- An entry for two hosts.

abbrev two_hosts : Bytes × HostCfg
two_hosts = (bytes "a.b, b.c", (bytes "/p", ProxyCfg.other) ∷ [])

two_hosts_run : last_entry (two_hosts ∷ []) (bytes "b.c") none ≡ some two_hosts.1
unfolding last_entry split trim_space trim_left trim_right bytes_eq
two_hosts_run = refl

proxy_cfg-make_config_example :
    (config : List (Bytes × HostCfg)) × (make_config (two_hosts ∷ []) ≡ some config)
    × (proxy_cfg config (bytes "b.c") (bytes "/p")
        ≡ endpoint_cfg
            (or_empty (
              or_else
                (last_entry (two_hosts ∷ []) (bytes "b.c") none)
                (last_entry (two_hosts ∷ []) (bytes "*") none)))
            (bytes "/p"))
proxy_cfg-make_config_example = proxy_cfg-make_config two_hosts [] (bytes "b.c") (bytes "/p")
