-- ===== src/Handle.antt =====
-- What a handler of a connection does with the tunnel that the manager gave it
-- (internal/tunnelmgr/types.go, `TunnelHandle`): a handle is the place of the tunnel in the store.
-- `none` is a panic; a handle without a tunnel would be a nil pointer.
pub mod Sound
pub mod Laws
pub mod Sample
use lazyfwd.Base.{
  ℕ, Bool, true, false, Option, none, some, List, [], ◌∷◌, Bytes, get_elem?, if◌then◌else◌, Result,
  ok, err,
}
use lazyfwd.Tunnel.{
  Error, Tunnel, Attempt, is_running, start, touch, mark_failed, idle_duration, scheme,
}
use lazyfwd.Tunnel.Laws.{Start}
use lazyfwd.Manager.{Manager, tunnel_at, put_tunnel}

-- What a request meets while it waits for a tunnel: the time when it asks the manager and the time
-- when it touches the tunnel, the answers to a start, and how `awaitReady` ends if another
-- goroutine is starting the tunnel.
pub record Weather (Client : Type 0) : Type 0 where
  pub now : ℕ
  pub later : ℕ
  pub attempt : Attempt
  pub joined : Start Client

module _ {Client : Type 0} where
  put_back :
      ℕ
      → Manager Client
      → Option (Result Error (Unit {0}) × Tunnel Client)
      → Option (Result Error (Unit {0}) × Manager Client)
  put_back i m none = none
  put_back i m (some (r, t)) = some (r, put_tunnel m i t)

  ensured :
      Weather Client
      → ℕ
      → Manager Client
      → Option (Tunnel Client)
      → Option (Result Error (Unit {0}) × Manager Client)
  unfolding put_back
  ensured w i m none = none
  ensured w i m (some t) =
      if is_running t then some (ok tt, m) else put_back i m (start w.joined w.attempt t)

  -- `if !tunnel.IsRunning() { err := tunnel.Start(ctx) ... }`
  unfoldable pub ensure_running :
      Weather Client → ℕ → Manager Client → Option (Result Error (Unit {0}) × Manager Client)
  unfolding ensured
  ensure_running w i m = ensured w i m (tunnel_at m i)

  touched : ℕ → ℕ → Manager Client → Option (Tunnel Client) → Option (Manager Client)
  touched now i m none = none
  touched now i m (some t) = some (put_tunnel m i (touch now t))

  -- `tunnel.Touch()`
  unfoldable pub touch_at : ℕ → ℕ → Manager Client → Option (Manager Client)
  unfolding touched
  touch_at now i m = touched now i m (tunnel_at m i)

  unfoldable pub put_failed : ℕ → Manager Client → Option (Tunnel Client) → Option (Manager Client)
  put_failed i m none = none
  put_failed i m (some t) = some (put_tunnel m i t)

  unfoldable pub failed_at :
      Error → ℕ → Manager Client → Option (Tunnel Client) → Option (Manager Client)
  unfolding put_failed
  failed_at e i m none = none
  failed_at e i m (some t) = put_failed i m (mark_failed e t)

  -- `tunnel.MarkFailed(err)`
  unfoldable pub mark_failed_at : Error → ℕ → Manager Client → Option (Manager Client)
  unfolding failed_at
  mark_failed_at e i m = failed_at e i m (tunnel_at m i)
