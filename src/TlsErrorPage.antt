-- ===== src/TlsErrorPage.antt =====
-- internal/httpserver/tls_error_handler.go: the page that a TLS client gets in place of a reset
-- connection, and the connection that hands out the ClientHello once more. The TLS handshake
-- (crypto/tls) and the reason phrases (net/http) are arguments.
pub mod Replay
mod Tests
use lazyfwd.Base.{
  ℕ, suc, ◌-◌, Bool, true, false, Option, none, some, List, [], ◌∷◌, ◌++◌, Bytes, codes, length,
  take, drop, is_empty, not, ◌&&◌, leb, if◌then◌else◌, Result, ok, err,
}
use lazyfwd.Text.{format_nat}
use lazyfwd.CertCache.{Cache, get_certificate}

-- `tlsErrorType`
pub data TlsErrorType : Type 0 where
  sni_extraction route_not_found tunnel_startup backend_connection forwarding : TlsErrorType

-- `statusCode`
unfoldable pub status_code : TlsErrorType → ℕ
status_code route_not_found = 404
status_code sni_extraction = 400
status_code _ = 502

-- `replayConn`, over a connection in a state `Conn`.
pub record ReplayConn (Conn : Type 0) : Type 0 where
  pub conn : Conn
  pub initial : Bytes
  pub replayed : Bool

module _ {Conn : Type 0} where
  read_conn : (ℕ → Conn → Bytes × Conn) → ℕ → ReplayConn Conn → Bytes × ReplayConn Conn
  read_conn read n r = let (b, c) = read n r.conn in (b, record r { conn = c })

  copy_initial : ℕ → ReplayConn Conn → Bytes × ReplayConn Conn
  copy_initial n r =
      if leb (length r.initial) n
      then (r.initial, record r { initial = []; replayed = true })
      else (take n r.initial, record r { initial = drop n r.initial })

  -- `replayConn.Read`, into a buffer of `n` bytes: first of what was read already.
  unfoldable pub replay_read :
      (ℕ → Conn → Bytes × Conn) → ℕ → ReplayConn Conn → Bytes × ReplayConn Conn
  unfolding read_conn copy_initial
  replay_read read n r =
      if not r.replayed && not (is_empty r.initial) then copy_initial n r else read_conn read n r

-- The head of the response and its body (`renderErrorPage`), which is the message.
unfoldable pub response : (ℕ → Bytes) → ℕ → Bytes → Bytes
response status_text code body =
    codes "HTTP/1.1 "
    ++ (format_nat code
        ++ (codes " "
            ++ (status_text code
                ++ ((13 ∷ 10 ∷ [])
                    ++ (codes "Content-Type: text/plain; charset=utf-8"
                        ++ ((13 ∷ 10 ∷ [])
                            ++ (codes "Content-Length: "
                                ++ (format_nat (length body)
                                    ++ ((13 ∷ 10 ∷ [])
                                        ++ (codes "Connection: close"
                                            ++ ((13 ∷ 10 ∷ 13 ∷ 10 ∷ []) ++ body)))))))))))

-- `renderErrorPage`
unfoldable pub render_error_page : ℕ → Bytes → Bytes → Bytes
render_error_page code hostname text = text

abbrev named_host : Bytes → Bytes
named_host h = if is_empty h then codes "unknown.localhost" else h

module _ {Cert : Type 0} where
  certified :
      (Cert → Bool)
      → (ℕ → Bytes)
      → TlsErrorType
      → Bytes
      → Bytes
      → Result Bytes Cert × Cache Cert
      → Option Bytes × Option (Cache Cert)
  certified handshake status_text type hostname text (err e, c) = (none, some c)
  certified handshake status_text type hostname text (ok cert, c) = (
    if handshake cert
        then some (
            response status_text (status_code type)
              (render_error_page (status_code type) hostname text))
        else none,
    some c,
  )

  -- `sendTLSErrorPage`: what is written to the client, if its handshake succeeds. Without a
  -- provider of certificates nothing is sent.
  unfoldable pub send_tls_error_page :
      (Bytes → Result Bytes Cert)
      → (Cache Cert → Cache Cert)
      → (Cert → Bool)
      → (ℕ → Bytes)
      → TlsErrorType
      → Bytes
      → Bytes
      → Option (Cache Cert)
      → Option Bytes × Option (Cache Cert)
  unfolding certified
  send_tls_error_page make others handshake status_text type hostname text none = (none, none)
  send_tls_error_page make others handshake status_text type hostname text (some c) =
      certified handshake status_text type (named_host hostname) text
        (get_certificate make others (named_host hostname) c)
