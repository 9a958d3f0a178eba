-- ===== src/App/Ready.antt =====
-- What the start-up makes, and what the shutdown leaves.
use lazyfwd.Base.{
  ℕ, ◌≡◌, ◌≢◌, refl, Bool, true, false, Option, none, some, [], get_elem?, Result, ok, err,
}
use lazyfwd.Base.Int.{ℤ}
use lazyfwd.GoMap.{GoMap}
use lazyfwd.Config.{Config, TcpK8sConfig}
use lazyfwd.Config.Load.{LoadError}
use lazyfwd.Config.Validate.Spec.{IsValid}
use lazyfwd.Watcher.{ConfigWatcher}
use lazyfwd.Watcher.Steps.{IsCurrent}
use lazyfwd.Tunnel.{Error, Tunnel, running, open_chan, closed_chan, close}
use lazyfwd.Manager.Cleanup.{CanStop}
use lazyfwd.Manager.Shutdown.{IsMapped, shutdown-stops_all}
use lazyfwd.Handle.Sound.{IsSound}
use lazyfwd.TcpServer.{Server, start}
use lazyfwd.TcpServer.Listeners.{IsListening, Listens, stopped, shutdown-stopped}
use lazyfwd.App.{
  Mux, HttpServer, start_http, close_http, shutdown_http, App, with_manager, after_tcp, stop_tcp,
  stopped_tcp, after_http, shutdown_app,
}

-- The start of the TCP server, where there is one: none is needed without TCP ports, and with them it
-- listens on all of them or gives up.
abbrev pub CanListen : (ℤ → Option Error) → TcpK8sConfig → Option Server → Type 0
CanListen listen k8s none = (k8s.routes ≡ []) × (k8s.jump ≡ [])
CanListen listen k8s (some s) = Listens k8s (start listen s)

abbrev pub MuxOpen : Option Mux → Type 0
MuxOpen none = Unit
MuxOpen (some m) = m.done ≡ open_chan

-- An HTTP server that can be shut down: its channel is open, and that of its listener, if there is one.
pub record IsClosable (s : HttpServer) : Type 0 where
  pub open_done : s.done ≡ open_chan
  pub open_mux : MuxOpen s.listener

abbrev pub MuxClosed : Option Mux → Type 0
MuxClosed none = Unit
MuxClosed (some m) = (m.is_open ≡ false) × (m.done ≡ closed_chan)

-- An HTTP server that has been shut down: whoever waits for its channel or for that of its listener goes
-- on, and neither the listener nor the `http.Server` is open.
pub record IsShut (s : HttpServer) : Type 0 where
  pub shut_done : s.done ≡ closed_chan
  pub shut_mux : MuxClosed s.listener
  pub shut_server : s.server ≢ some true

shutdown_http-IsShut :
    (s : HttpServer) → IsClosable s → (t : HttpServer) × (shutdown_http s ≡ some t) × IsShut t
unfolding shutdown_http close
shutdown_http-IsShut s k = from s.listener s.server refl refl k.open_mux
  where
    not_open : (b : Option Bool) → close_http b ≢ some true
    not_open none e = cc (e)
    not_open (some b) e = cc (e)

    from :
        (l : Option Mux) (v : Option Bool)
        → s.listener ≡ l
        → s.server ≡ v
        → MuxOpen l
        → (t : HttpServer) × (shutdown_http s ≡ some t) × IsShut t
    from none v e f o = (
      record { done = closed_chan; listener = none; server = close_http v },
      rw (k.open_done, e, f) refl,
      record { shut_done = refl; shut_mux = tt; shut_server = not_open v },
    )
    from (some m) v e f o = (
      record {
        done = closed_chan;
        listener = some (record { done = closed_chan; is_open = false });
        server = close_http v;
      },
      rw (k.open_done, e, f, o) refl,
      record { shut_done = refl; shut_mux = (refl, refl); shut_server = not_open v },
    )

-- A program that can run: a valid configuration, which the manager has, a sound manager, an HTTP
-- server that can be shut down, before and after its start, and a TCP server where one is needed.
pub record IsReady {Client : Type 0} (listen : ℤ → Option Error) (a : App Client) : Type 0 where
  pub valid : IsValid a.cfg
  pub shared : a.manager.config ≡ a.cfg
  pub sound : IsSound a.manager
  pub closable : IsClosable a.http_server
  pub closable_started : (o : Option Error) → IsClosable (start_http o a.http_server).1
  pub tcp : CanListen listen a.cfg.tcp.k8s a.tcp_server

module _ {Client : Type 0} where
  -- What the start-up returns.
  abbrev pub Initialized :
      (ℤ → Option Error) → Result LoadError (App Client × Option ConfigWatcher) → Type 0
  Initialized listen (err e) = Unit
  Initialized listen (ok (a, none)) = IsReady listen a
  Initialized listen (ok (a, some w)) = IsReady listen a × (w.current_config ≡ a.cfg)

abbrev pub WatcherCurrent : Option ConfigWatcher → Type 0
WatcherCurrent none = Unit
WatcherCurrent (some w) = IsCurrent w

-- The TCP server, if there is one, has every bound port in its map.
abbrev pub TcpListening : Option Server → Type 0
TcpListening none = Unit
TcpListening (some s) = IsListening s

abbrev pub Unbound : Option Server → Type 0
Unbound none = Unit
Unbound (some s) = (s.bound ≡ []) × (s.listeners ≡ [])

module _ {Client : Type 0} where
  -- The shutdown of a program whose channels are open does not panic. Afterwards the channels of the HTTP
  -- server and of its listener are closed, neither the listener nor the server is open, the TCP server has no port bound, the maps of the manager are empty, and no tunnel that
  -- they led to is running.
  pub shutdown_app-stops :
      (a : App Client)
      → IsClosable a.http_server
      → TcpListening a.tcp_server
      → CanStop a.manager.store
      → (left : App Client) × (shutdown_app a ≡ some left)
        × IsShut left.http_server
        × Unbound left.tcp_server
        × (left.manager.tunnels ≡ [])
        × (left.manager.tcp_tunnels ≡ [])
        × ((i : ℕ) (t : Tunnel Client)
            → IsMapped a.manager i
            → get_elem? left.manager.store i ≡ some t
            → t.state ≢ running)
  unfolding shutdown_app after_http after_tcp with_manager
  shutdown_app-stops a closable listening can =
      let (m, q, no_http, no_tcp, no_clients, none_runs) = shutdown-stops_all a.manager can in
      let (t, r, unbound) = stop a.tcp_server listening in
      let (h, closed, shut) = shutdown_http-IsShut a.http_server closable in
      (
        record a { manager = m; http_server = h; tcp_server = t },
        rw (closed, after_http, r, after_tcp, q, with_manager) refl,
        shut,
        unbound,
        no_http,
        no_tcp,
        none_runs,
      )
    where
      stop :
          (s : Option Server)
          → TcpListening s
          → (t : Option Server) × (stop_tcp s ≡ some t) × Unbound t
      stop none l = (none, unfold stop_tcp in refl, tt)
      stop (some s) l = (
        some (stopped s),
        unfold stop_tcp stopped_tcp in rw (shutdown-stopped s l, stopped_tcp) refl,
        (refl, refl),
      )
