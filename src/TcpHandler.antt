-- ===== src/TcpHandler.antt =====
-- internal/tcpserver/server.go, `handleConnection` and `handleJumpConnection`: what happens to one
-- connection to a local TCP port. `none` is a panic.
pub mod Laws
mod Tests
use lazyfwd.Base.{ℕ, Bool, Option, none, some, List, [], ◌∷◌, ◌++◌, Bytes, codes, Result, ok, err}
use lazyfwd.Base.Int.{ℤ, int_eq}
use lazyfwd.GoMap.{lookup}
use lazyfwd.Config.{JumpRouteConfig}
use lazyfwd.ClientFactory.{Clients, Connect, get_client_for_context}
use lazyfwd.Tunnel.{Error}
use lazyfwd.Manager.{Manager, get_or_create_tcp_tunnel}
use lazyfwd.Handle.{Weather, ensure_running, touch_at, mark_failed_at}
use lazyfwd.TlsHandler.{dial_failed}
use lazyfwd.Jump.{PodSpec, Exec, Handled}

-- A connection is closed at once, or its bytes go through the tunnel at a place.
pub data TcpReply : Type 0 where
  refused : TcpReply
  piped : ℕ → TcpReply

-- How a jump connection ends.
pub data JumpEnd : Type 0 where
  no_jump_route : JumpEnd
  no_client : Error → JumpEnd
  handled : Option (Handled × List PodSpec) → JumpEnd

module _ {Client : Type 0} where
  with_reply : TcpReply → Option (Manager Client) → Option (TcpReply × Manager Client)
  with_reply r none = none
  with_reply r (some m) = some (r, m)

  -- A backend that does not answer fails its tunnel; otherwise the tunnel is touched.
  after_dial : ℕ → ℕ → Option Error → Manager Client → Option (TcpReply × Manager Client)
  unfolding with_reply
  after_dial later i (some e) m = with_reply refused (mark_failed_at (dial_failed e) i m)
  after_dial later i none m = with_reply (piped i) (touch_at later i m)

  after_start :
      ℕ
      → ℕ
      → Option Error
      → Option (Result Error (Unit {0}) × Manager Client)
      → Option (TcpReply × Manager Client)
  unfolding after_dial
  after_start later i dial none = none
  after_start later i dial (some (err e, m)) = some (refused, m)
  after_start later i dial (some (ok u, m)) = after_dial later i dial m

  with_tunnel :
      Weather Client
      → Option Error
      → Result Error ℕ × Manager Client
      → Option (TcpReply × Manager Client)
  unfolding after_start
  with_tunnel w dial (err e, m) = some (refused, m)
  with_tunnel w dial (ok i, m) = after_start w.later i dial (ensure_running w i m)

  -- `handleConnection`
  unfoldable pub handle_connection :
      Connect Client
      → Weather Client
      → Option Error
      → ℤ
      → Manager Client
      → Option (TcpReply × Manager Client)
  unfolding with_tunnel
  handle_connection connect w dial port m =
      with_tunnel w dial (get_or_create_tcp_tunnel connect w.now port m)

  with_client :
      (Client → JumpRouteConfig → Option (Handled × List PodSpec))
      → JumpRouteConfig
      → Result Error Client × Clients Client
      → Manager Client
      → JumpEnd × Manager Client
  with_client handle r (err e, clients) m = (no_client e, record m { clients = clients })
  with_client handle r (ok c, clients) m = (handled (handle c r), record m { clients = clients })

  -- `handleJumpConnection`; `handle` is `HandleConnection` with the client of the route's context.
  unfoldable pub handle_jump_connection :
      Connect Client
      → (Client → JumpRouteConfig → Option (Handled × List PodSpec))
      → ℤ
      → Manager Client
      → JumpEnd × Manager Client
  unfolding with_client
  handle_jump_connection connect handle port m = elim (lookup m.config.tcp.k8s.jump port) [
    | none ↦ (no_jump_route, m)
    | some r ↦
        with_client handle r
          (get_client_for_context connect m.clients m.config.tcp.k8s.resolved_kubeconfigs r.context)
          m
  ]
