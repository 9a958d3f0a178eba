-- ===== src/App.antt =====
-- main.go: the parts that one run of the program consists of, how they are made from a configuration,
-- and in which order they are shut down. `none` is a panic.
pub mod Ready
mod Tests
use lazyfwd.Base.{
  ℕ, Bool, true, false, ◌&&◌, ◌||◌, Option, none, some, List, [], ◌∷◌, ◌++◌, Bytes, codes, not,
  is_empty, if◌then◌else◌, Result, ok, err,
}
use lazyfwd.Config.{Config, TcpK8sConfig}
use lazyfwd.Config.Load.{Outside, LoadError, load_config}
use lazyfwd.ExecPath.{Process, expand_exec_path}
use lazyfwd.Watcher.{ConfigWatcher, with_verbose}
use lazyfwd.Tunnel.{Error, Chan, open_chan, close}
use lazyfwd.Manager.{Manager, new_manager}
use lazyfwd.Manager.Idle.{shutdown}
use lazyfwd.TcpServer.{Server, new_server}
use lazyfwd.TcpServer

-- `muxListener`: its channel `done`, and whether its socket is open.
pub record Mux : Type 0 where
  pub done : Chan
  pub is_open : Bool

-- `httpserver.Server`: its channel `done`, and the listener and the `http.Server`, which are nil before
-- the start; of the `http.Server` whether it is open.
pub record HttpServer : Type 0 where
  pub done : Chan
  pub listener : Option Mux
  pub server : Option Bool

-- `httpserver.NewServer`
unfoldable pub new_http_server : HttpServer
new_http_server = record { done = open_chan; listener = none; server = none }

-- `Server.Start` up to its loop: the listener if the address can be bound, the `http.Server` with it
unfoldable pub start_http : Option Error → HttpServer → Result Error (Unit {0}) × HttpServer
start_http (some e) s = (err (codes "failed to listen: " ++ e), s)
start_http none s = (
  ok tt,
  record s { listener = some (record { done = open_chan; is_open = true }); server = some true },
)

-- `muxListener.Close`
close_mux : Mux → Option Mux
close_mux m = elim (close m.done) [
  | none ↦ none
  | some c ↦ some (record { done = c; is_open = false })
]

close_listener : Option Mux → Option (Option Mux)
unfolding close_mux
close_listener none = some none
close_listener (some m) = elim (close_mux m) [ none ↦ none | some n ↦ some (some n) ]

abbrev pub close_http : Option Bool → Option Bool
close_http none = none
close_http (some b) = some false

-- `httpserver.Server.Shutdown`: the channel, then the listener and the server, where they are not nil
unfoldable pub shutdown_http : HttpServer → Option HttpServer
unfolding close_listener
shutdown_http s = elim (close s.done) [
  | none ↦ none
  | some c ↦ elim (close_listener s.listener) [
    | none ↦ none
    | some l ↦ some (record { done = c; listener = l; server = close_http s.server })
  ]
]

-- `appComponents`, and the PATH
pub record App (Client : Type 0) : Type 0 where
  pub cfg : Config
  pub path : Bytes
  pub manager : Manager Client
  pub http_server : HttpServer
  pub tcp_server : Option Server

abbrev pub needs_tcp : TcpK8sConfig → Bool
needs_tcp k = not (is_empty k.routes) || not (is_empty k.jump)

stopped_tcp : Option Server → Option (Option Server)
stopped_tcp none = none
stopped_tcp (some s) = some (some s)

stop_tcp : Option Server → Option (Option Server)
unfolding stopped_tcp
stop_tcp none = some none
stop_tcp (some s) = stopped_tcp (lazyfwd.TcpServer.shutdown s)

module _ {Client : Type 0} where
  unfoldable pub app_of : Process → Config → App Client
  app_of p c = record {
    cfg = c;
    path = expand_exec_path p c.exec_path;
    manager = new_manager c;
    http_server = new_http_server;
    tcp_server = if needs_tcp c.tcp.k8s then some (new_server c.tcp.k8s) else none;
  }

  loaded :
      Process
      → Bool
      → Result LoadError Config
      → Result LoadError (App Client × Option ConfigWatcher)
  loaded p cli (err e) = err e
  loaded p cli (ok c) = ok (app_of p (with_verbose cli c), none)

  -- `initializeApp`. The configuration of a watcher is shared with the program, so that the watcher
  -- sees the flag as well.
  unfoldable pub initialize_app :
      Outside
      → Process
      → Bool
      → Option ConfigWatcher
      → Result LoadError (App Client × Option ConfigWatcher)
  unfolding loaded
  initialize_app o p cli none = loaded p cli (load_config o)
  initialize_app o p cli (some w) =
      let c = with_verbose (cli || w.cli_verbose) w.current_config in
      ok (app_of p c, some (record w { current_config = c }))

  with_manager :
      App Client → HttpServer → Option Server → Option (Manager Client) → Option (App Client)
  with_manager a h t none = none
  with_manager a h t (some m) = some (record a { manager = m; http_server = h; tcp_server = t })

  after_tcp : App Client → HttpServer → Option (Option Server) → Option (App Client)
  unfolding with_manager
  after_tcp a h none = none
  after_tcp a h (some t) = with_manager a h t (shutdown a.manager)

  after_http : App Client → Option HttpServer → Option (App Client)
  unfolding after_tcp
  after_http a none = none
  after_http a (some h) = after_tcp a h (stop_tcp a.tcp_server)

  -- `shutdownApp`: HTTP, TCP and then the tunnels.
  unfoldable pub shutdown_app : App Client → Option (App Client)
  unfolding after_http stop_tcp
  shutdown_app a = after_http a (shutdown_http a.http_server)
