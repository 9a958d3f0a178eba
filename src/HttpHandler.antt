-- ===== src/HttpHandler.antt =====
-- internal/httpserver/http_handler.go: one HTTP request. What `httputil.ReverseProxy` reports to its
-- `ErrorHandler` is an argument, for each of the two tries. `none` is a panic.
pub mod Laws
pub mod Retry
mod Tests
use lazyfwd.Base.{
  ℕ, Bool, true, false, Option, none, some, List, [], ◌∷◌, ◌++◌, Bytes, codes, take, is_empty,
  if◌then◌else◌, Result, ok, err,
}
use lazyfwd.Text.{last_index, contains, split, format_nat}
use lazyfwd.ClientFactory.{Connect}
use lazyfwd.Tunnel.{Error, Tunnel, scheme}
use lazyfwd.Manager.{Manager, tunnel_at, get_or_create_tunnel}
use lazyfwd.Handle.{Weather, ensure_running, touch_at, mark_failed_at}

-- The fields of `http.Request` that the handler reads.
pub record Request : Type 0 where
  pub host : Bytes
  pub remote_addr : Bytes

-- The reply: through the tunnel at a place, or 502 with a text.
pub data Reply : Type 0 where
  served : ℕ → Reply
  bad_gateway : Bytes → Reply

host_before : Bytes → Option ℕ → Bytes
host_before host none = host
host_before host (some i) = take i host

-- The host without what stands behind its last colon.
unfoldable pub host_name : Bytes → Bytes
unfolding host_before
host_name host = host_before host (last_index host (codes ":"))

abbrev first_part : List Bytes → Bytes
first_part [] = []
first_part (p ∷ ps) = p

-- `strings.Split(r.RemoteAddr, ":")[0]`
unfoldable pub forwarded_for : Bytes → Bytes
forwarded_for addr = first_part (split b':' addr)

abbrev for_header : Bytes → List (Bytes × Bytes)
for_header [] = []
for_header (c ∷ s) = (codes "X-Forwarded-For", forwarded_for (c ∷ s)) ∷ []

-- The headers that `proxy.Director` sets, for the scheme of the tunnel.
unfoldable pub forwarded_headers : Bytes → Request → List (Bytes × Bytes)
forwarded_headers tunnel_scheme r =
    (codes "X-Forwarded-Proto", tunnel_scheme)
    ∷ (codes "X-Forwarded-Host", r.host)
    ∷ for_header r.remote_addr

-- `proxy.ErrorHandler`: a client that has gone is no error of the backend.
unfoldable pub proxy_error : Option Error → Option Error
proxy_error none = none
proxy_error (some e) = if contains (codes "context canceled") e then none else some e

-- How one try through a tunnel ends.
pub data Tried : Type 0 where
  start_failed : Error → Tried
  proxied : Option Error → Tried

abbrev pub start_message : Error → Bytes
start_message e = codes "Failed to start tunnel: " ++ e

abbrev pub proxy_message : Bytes → Error → Bytes
proxy_message host e = codes "Proxy error for host '" ++ (host ++ (codes "': " ++ e))

module _ {Client : Type 0} where
  after_touch : Option Error → Option (Manager Client) → Option (Tried × Manager Client)
  after_touch reported none = none
  after_touch reported (some m) = some (proxied (proxy_error reported), m)

  after_start :
      ℕ
      → ℕ
      → Option Error
      → Option (Result Error (Unit {0}) × Manager Client)
      → Option (Tried × Manager Client)
  unfolding after_touch
  after_start later i reported none = none
  after_start later i reported (some (err e, m)) = some (start_failed e, m)
  after_start later i reported (some (ok u, m)) = after_touch reported (touch_at later i m)

  -- The tunnel is started if need be, touched, and used.
  unfoldable pub try_tunnel :
      Weather Client → Option Error → ℕ → Manager Client → Option (Tried × Manager Client)
  unfolding after_start
  try_tunnel w reported i m = after_start w.later i reported (ensure_running w i m)

  last_reply : Bytes → ℕ → Option (Tried × Manager Client) → Option (Reply × Manager Client)
  last_reply host i none = none
  last_reply host i (some (start_failed e, m)) = some (bad_gateway (start_message e), m)
  last_reply host i (some (proxied none, m)) = some (served i, m)
  last_reply host i (some (proxied (some e), m)) = some (bad_gateway (proxy_message host e), m)

  -- The second try; a failure to get a tunnel is reported by the error of the first one.
  second_try :
      Weather Client
      → Option Error
      → Bytes
      → Error
      → Result Error ℕ × Manager Client
      → Option (Reply × Manager Client)
  unfolding last_reply
  second_try w reported host first (err e, m) = some (bad_gateway (proxy_message host first), m)
  second_try w reported host first (ok i, m) = last_reply host i (try_tunnel w reported i m)

  -- A tunnel that failed is marked, so that the manager hands out a fresh one.
  unfoldable pub retry :
      Connect Client
      → Weather Client
      → Option Error
      → Bytes
      → Error
      → Option (Manager Client)
      → Option (Reply × Manager Client)
  unfolding second_try
  retry connect w reported host first none = none
  retry connect w reported host first (some m) =
      second_try w reported host first (get_or_create_tunnel connect w.now host (codes "http") m)

  first_reply :
      Connect Client
      → Weather Client
      → Option Error
      → Bytes
      → ℕ
      → Option (Tried × Manager Client)
      → Option (Reply × Manager Client)
  unfolding retry
  first_reply connect w2 reported2 host i none = none
  first_reply connect w2 reported2 host i (some (start_failed e, m)) =
      some (bad_gateway (start_message e), m)
  first_reply connect w2 reported2 host i (some (proxied none, m)) = some (served i, m)
  first_reply connect w2 reported2 host i (some (proxied (some e), m)) =
      retry connect w2 reported2 host e (mark_failed_at e i m)

  first_try :
      Connect Client
      → Weather Client
      → Option Error
      → Weather Client
      → Option Error
      → Bytes
      → Result Error ℕ × Manager Client
      → Option (Reply × Manager Client)
  unfolding first_reply
  first_try connect w1 reported1 w2 reported2 host (err e, m) =
      some (bad_gateway (codes "No service configured for host: " ++ host), m)
  first_try connect w1 reported1 w2 reported2 host (ok i, m) =
      first_reply connect w2 reported2 host i (try_tunnel w1 reported1 i m)

  -- `ServeHTTP`
  unfoldable pub serve_http :
      Connect Client
      → Weather Client
      → Option Error
      → Weather Client
      → Option Error
      → Request
      → Manager Client
      → Option (Reply × Manager Client)
  unfolding first_try
  serve_http connect w1 reported1 w2 reported2 r m =
      let host = host_name r.host in
      first_try connect w1 reported1 w2 reported2 host
        (get_or_create_tunnel connect w1.now host (codes "http") m)
