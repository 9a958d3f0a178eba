-- ===== src/TcpServer.antt =====
-- internal/tcpserver/server.go: the listeners of the local TCP ports. `bound` holds the ports that
-- `net.Listen` has bound for the server and that are not closed yet. `none` is a panic, the close of
-- a closed channel.
pub mod Accept
pub mod Listeners
mod Tests
use lazyfwd.Base.{
  ℕ, suc, Bool, true, false, Option, none, some, List, [], ◌∷◌, ◌++◌, map, Bytes, codes,
  if◌then◌else◌, Result, ok, err, ◌==◌,
}
use lazyfwd.Base.Int.{ℤ, int_eq}
use lazyfwd.Text.{format_int}
use lazyfwd.GoMap.{GoMap, keys, insert}
use lazyfwd.Config.{TcpK8sConfig}
use lazyfwd.Tunnel.{Error, Chan, open_chan, closed_chan}

-- `listenerType`
pub data ListenerType : Type 0 where
  route jump : ListenerType

-- `portListener`
pub record PortListener : Type 0 where
  pub port : ℤ
  pub listener_type : ListenerType
  pub stop_chan : Chan

pub record Server : Type 0 where
  pub k8s : TcpK8sConfig
  pub listeners : GoMap ℤ PortListener
  pub bound : List ℤ
  pub cancelled : Bool

-- `NewServer`
unfoldable pub new_server : TcpK8sConfig → Server
new_server k8s = record { k8s = k8s; listeners = []; bound = []; cancelled = false }

listened : ℤ → ListenerType → Option Error → Server → Result Error (Unit {0}) × Server
listened port lt (some e) s =
    (err (codes "failed to listen on TCP port " ++ (format_int port ++ (codes ": " ++ e))), s)
listened port lt none s = (
  ok tt,
  record s {
    listeners =
        insert s.listeners port (record { port = port; listener_type = lt; stop_chan = open_chan });
    bound = port ∷ s.bound;
  },
)

-- `startListener`; the second argument is what `net.Listen` answers for each port.
unfoldable pub start_listener :
    (ℤ → Option Error) → ℤ → ListenerType → Server → Result Error (Unit {0}) × Server
unfolding listened
start_listener listen port lt s = listened port lt (listen port) s

-- The first of equal ports goes.
unfoldable pub unbind : ℤ → List ℤ → List ℤ
unbind port [] = []
unbind port (p ∷ ps) = let rest = unbind port ps in if p == port then ps else p ∷ rest

-- `close(pl.stopChan)` and `pl.listener.Close()` for every listener of the map.
unfoldable pub close_all : GoMap ℤ PortListener → List ℤ → Option (List ℤ)
close_all [] bound = some bound
close_all ((port, pl) ∷ rest) bound = elim pl.stop_chan [
  | open_chan ↦ close_all rest (unbind pl.port bound)
  | _ ↦ none
]

closed_server : Server → Option (List ℤ) → Option Server
closed_server s none = none
closed_server s (some bound) = some (record s { listeners = []; bound = bound; cancelled = true })

-- `Shutdown`
unfoldable pub shutdown : Server → Option Server
unfolding closed_server
shutdown s = closed_server s (close_all s.listeners s.bound)

abbrev pub Starting : Type 0
Starting = Option (Result Error (Unit {0}) × Server)

after_shutdown : Error → Option Server → Starting
after_shutdown e none = none
after_shutdown e (some s) = some (err e, s)

-- One round of a loop of `Start`, and the rest if the port is bound.
after_listen : Result Error (Unit {0}) × Server → (Server → Starting) → Starting
unfolding after_shutdown
after_listen (err e, s) rest = after_shutdown e (shutdown s)
after_listen (ok u, s) rest = rest s

-- A loop of `Start` over the ports of one kind, and what comes after it.
unfoldable pub start_all :
    (ℤ → Option Error) → ListenerType → List ℤ → (Server → Starting) → Server → Starting
unfolding after_listen
start_all listen lt [] next s = next s
start_all listen lt (p ∷ ps) next s =
    after_listen (start_listener listen p lt s) (start_all listen lt ps next)

abbrev pub started : Server → Starting
started s = some (ok tt, s)

-- `Start`
unfoldable pub start : (ℤ → Option Error) → Server → Starting
start listen s =
    start_all listen route (keys s.k8s.routes) (start_all listen jump (keys s.k8s.jump) started) s
