-- ===== src/Listener.antt =====
-- internal/httpserver/mux_listener.go and server.go: the first byte of a connection decides whether it
-- is passed through as TLS or queued for the HTTP server. `httpConns` is a queue of connections.
pub mod Actions
pub mod Order
mod Tests
use lazyfwd.Base.{
  ℕ, Bool, true, false, not, ◌&&◌, ◌||◌, Option, none, some, List, [], ◌∷◌, ◌++◌, length, ltb,
  nat_beq, if◌then◌else◌, Result, ok, err,
}
use lazyfwd.Tunnel.{Error}

-- `muxListener`: its queue, and the connections whose goroutines wait in the `select` of
-- `handleConnection` for a place in the queue, oldest first; the channels `done` of the server and
-- of the listener, which the shutdown closes one after the other.
pub record MuxListener (Conn : Type 0) : Type 0 where
  pub http_conns : List Conn
  pub waiting : List Conn
  pub server_done : Bool
  pub done : Bool

-- The capacity of `httpConns`
abbrev pub capacity : ℕ
capacity = 256

-- `peekConn.isTLS`, with what `Peek(1)` answers
unfoldable pub is_tls : Result Error ℕ → Bool
is_tls (err e) = false
is_tls (ok b) = nat_beq b 0x16

-- Where a connection goes: to the TLS handler, into the queue, closed, or its goroutine waits for a
-- place in the queue.
pub data Routed (Conn : Type 0) : Type 0 where
  to_tls : Conn → Routed Conn
  queued : Conn → Routed Conn
  dropped : Conn → Routed Conn
  held : Conn → Routed Conn

module _ {Conn : Type 0} where
  -- The `select`: with room in the queue and the server done, either case may be taken, which `prefer`
  -- decides; with neither, the goroutine waits.
  unfoldable pub enqueue : Bool → Conn → MuxListener Conn → Routed Conn × MuxListener Conn
  enqueue prefer c m =
      if ltb (length m.http_conns) capacity && (not m.server_done || prefer)
      then (queued c, record m { http_conns = m.http_conns ++ c ∷ [] })
      else if m.server_done
      then (dropped c, m)
      else (held c, record m { waiting = m.waiting ++ c ∷ [] })

  -- `Server.handleConnection`
  unfoldable pub handle_connection :
      Bool → Result Error ℕ → Conn → MuxListener Conn → Routed Conn × MuxListener Conn
  handle_connection prefer peeked c m = if is_tls peeked then (to_tls c, m) else enqueue prefer c m

  -- A connection has left the queue; the oldest waiting one takes the free place.
  unfoldable pub refill : List Conn → List Conn → MuxListener Conn → MuxListener Conn
  refill cs [] m = record m { http_conns = cs; waiting = [] }
  refill cs (w ∷ ws) m = record m { http_conns = cs ++ w ∷ []; waiting = ws }

  -- The `select` of `httpOnlyListener.Accept`: `none` waits, and an error says that the listener is
  -- closed. With a connection there and the listener closed, either case may be taken.
  unfoldable pub accept :
      Bool → MuxListener Conn → Option (Result (Unit {0}) Conn × MuxListener Conn)
  unfolding refill
  accept prefer m = elim m.http_conns [
    | [] ↦ if m.done then some (err tt, m) else none
    | c ∷ cs ↦ if m.done && not prefer then some (err tt, m) else some (ok c, refill cs m.waiting m)
  ]

  -- `close(s.done)`: the goroutines that wait close their connections, which are returned.
  unfoldable pub close_server : MuxListener Conn → List Conn × MuxListener Conn
  close_server m = (m.waiting, record m { waiting = []; server_done = true })

  -- `muxListener.Close`: `close(m.done)`
  unfoldable pub close_mux : MuxListener Conn → MuxListener Conn
  close_mux m = record m { done = true }
