-- ===== src/TlsHandler.antt =====
-- internal/httpserver/tls_passthrough.go, `handleTLSConnection`: one TLS connection is passed
-- through to the tunnel of the name in its ClientHello, or ends on an error page. What the sockets
-- answer is an argument. `none` is a panic.
pub mod Laws
mod Tests
use lazyfwd.Base.{ℕ, Bool, Option, none, some, List, [], ◌∷◌, ◌++◌, Bytes, codes, Result, ok, err}
use lazyfwd.ClientFactory.{Connect}
use lazyfwd.Tunnel.{Error}
use lazyfwd.Manager.{Manager, get_or_create_tunnel}
use lazyfwd.Handle.{Weather, ensure_running, touch_at, mark_failed_at}
use lazyfwd.HttpHandler.{start_message}
use lazyfwd.Sni.{
  SniError, record_too_short, not_handshake, record_incomplete, handshake_too_short,
  not_client_hello, no_session_id, no_cipher_suites, no_compression, no_extensions, sni_too_short,
  sni_truncated, sni_not_found, panic, out_of_fuel, extract_sni,
}
use lazyfwd.CertCache.{Cache}
use lazyfwd.TlsErrorPage.{
  TlsErrorType, sni_extraction, route_not_found, tunnel_startup, backend_connection, forwarding,
  send_tls_error_page,
}

-- The texts of the errors of `extractSNI`; the two faults are none of them.
unfoldable pub sni_text : SniError → Option Bytes
sni_text record_too_short = some (codes "data too short for TLS record")
sni_text not_handshake = some (codes "not a TLS handshake record")
sni_text record_incomplete = some (codes "incomplete TLS record")
sni_text handshake_too_short = some (codes "data too short for handshake header")
sni_text not_client_hello = some (codes "not a ClientHello")
sni_text no_session_id = some (codes "data too short for session ID length")
sni_text no_cipher_suites = some (codes "data too short for cipher suites length")
sni_text no_compression = some (codes "data too short for compression methods length")
sni_text no_extensions = some (codes "no extensions present")
sni_text sni_too_short = some (codes "SNI extension too short")
sni_text sni_truncated = some (codes "SNI name truncated")
sni_text sni_not_found = some (codes "SNI extension not found")
sni_text panic = none
sni_text out_of_fuel = none

-- The answers of the sockets: the first read, the dial to the tunnel's port, and the write of the
-- ClientHello.
pub record Sockets : Type 0 where
  pub first_read : Result Error Bytes
  pub dial : Option Error
  pub written : Option Error

-- How a connection ends: closed, on a page for a hostname, or as bytes that go through the tunnel at
-- a place, after the ClientHello.
pub data TlsReply : Type 0 where
  closed : TlsReply
  page : TlsErrorType → Bytes → Bytes → TlsReply
  passed : ℕ → Bytes → TlsReply

abbrev pub dial_failed : Error → Error
dial_failed e = codes "backend dial failed: " ++ e

module _ {Client : Type 0} where
  abbrev with_page :
      TlsErrorType → Bytes → Bytes → Option (Manager Client) → Option (TlsReply × Manager Client)
  with_page type sni text none = none
  with_page type sni text (some m) = some (page type sni text, m)

  after_dial :
      Sockets
      → Bytes
      → Bytes
      → ℕ
      → Option Error
      → Manager Client
      → Option (TlsReply × Manager Client)
  after_dial s hello sni i (some e) m =
      with_page backend_connection sni (codes "Failed to connect to backend: " ++ e)
        (mark_failed_at (dial_failed e) i m)
  after_dial s hello sni i none m = elim s.written [
    | some e ↦ some (page forwarding sni (codes "Failed to forward ClientHello: " ++ e), m)
    | none ↦ some (passed i hello, m)
  ]

  after_touch :
      Sockets → Bytes → Bytes → ℕ → Option (Manager Client) → Option (TlsReply × Manager Client)
  unfolding after_dial
  after_touch s hello sni i none = none
  after_touch s hello sni i (some m) = after_dial s hello sni i s.dial m

  after_start :
      ℕ
      → Sockets
      → Bytes
      → Bytes
      → ℕ
      → Option (Result Error (Unit {0}) × Manager Client)
      → Option (TlsReply × Manager Client)
  unfolding after_touch
  after_start later s hello sni i none = none
  after_start later s hello sni i (some (err e, m)) =
      some (page tunnel_startup sni (start_message e), m)
  after_start later s hello sni i (some (ok u, m)) = after_touch s hello sni i (touch_at later i m)

  with_tunnel :
      Weather Client
      → Sockets
      → Bytes
      → Bytes
      → Result Error ℕ × Manager Client
      → Option (TlsReply × Manager Client)
  unfolding after_start
  with_tunnel w s hello sni (err e, m) =
      some (page route_not_found sni (codes "No service configured for host: " ++ sni), m)
  with_tunnel w s hello sni (ok i, m) = after_start w.later s hello sni i (ensure_running w i m)

  unread : Option Bytes → Manager Client → Option (TlsReply × Manager Client)
  unread none m = none
  unread (some text) m = some (page sni_extraction [] (codes "Failed to extract SNI: " ++ text), m)

  with_name :
      Connect Client
      → Weather Client
      → Sockets
      → Bytes
      → Result SniError Bytes
      → Manager Client
      → Option (TlsReply × Manager Client)
  unfolding with_tunnel unread
  with_name connect w s hello (err e) m = unread (sni_text e) m
  with_name connect w s hello (ok sni) m =
      with_tunnel w s hello sni (get_or_create_tunnel connect w.now sni (codes "https") m)

  -- `handleTLSConnection` up to the error page and the copying.
  unfoldable pub handle_tls_connection :
      Connect Client
      → Weather Client
      → Sockets
      → Manager Client
      → Option (TlsReply × Manager Client)
  unfolding with_name
  handle_tls_connection connect w s m = elim s.first_read [
    | err e ↦ some (closed, m)
    | ok hello ↦ with_name connect w s hello (extract_sni hello) m
  ]

-- What the client gets at the end: the page, where there is one. The certificates are made by
-- `make`, and other goroutines do `others` to their cache in the meantime.
unfoldable pub finish_tls :
    {Cert : Type 0}
    → (Bytes → Result Bytes Cert)
    → (Cache Cert → Cache Cert)
    → (Cert → Bool)
    → (ℕ → Bytes)
    → TlsReply
    → Option (Cache Cert)
    → Option Bytes × Option (Cache Cert)
finish_tls make others handshake status_text (page type hostname text) c =
    send_tls_error_page make others handshake status_text type hostname text c
finish_tls make others handshake status_text _ c = (none, c)
