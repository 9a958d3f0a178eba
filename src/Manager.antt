-- ===== src/Manager.antt =====
-- internal/tunnelmgr: which tunnel serves a hostname or a local port. Tunnels are shared by
-- reference: the maps hold places in a store of tunnels, which only grows, as a handler may keep a
-- tunnel that has left its map. Each function here runs under the manager's lock.
pub mod Wf
pub mod Lookup
pub mod Sharing
pub mod Idle
pub mod Cleanup
pub mod Expiry
pub mod Tcp
pub mod Shutdown
pub mod Sample
mod Tests
use lazyfwd.Base.{
  ℕ, ◌-◌, Bool, true, false, not, ◌&&◌, Option, none, some, List, [], ◌∷◌, ◌++◌, Bytes, bytes_eq,
  codes, length, get_elem?, set, is_empty, if◌then◌else◌, Result, ok, err, ◌==◌,
}
use lazyfwd.Base.Int.{ℤ, pos, ltb_ℤ, int_eq}
use lazyfwd.GoMap.{GoMap, lookup, delete, insert}
use lazyfwd.Text.{format_int}
use lazyfwd.Config.{Config, K8sRouteConfig, TcpRouteConfig, to_k8s_route_config}
use lazyfwd.DynamicRoute.{parse_dynamic_hostname}
use lazyfwd.ClientFactory.{Clients, Connect, get_client_for_context, clear}
use lazyfwd.Tunnel.{
  Error, State, stopping, failed, Tunnel, new_tunnel, touch, is_running, idle_duration, stop,
}

pub record Manager (Client : Type 0) : Type 0 where
  pub config : Config
  pub store : List (Tunnel Client)
  pub tunnels : GoMap Bytes ℕ
  pub tcp_tunnels : GoMap ℤ ℕ
  pub clients : Clients Client

-- `state != StateStopping && state != StateFailed`
abbrev pub is_live : State → Bool
is_live stopping = false
is_live failed = false
is_live _ = true

-- The routes of the file come first, then the dynamic ones.
unfoldable pub resolve_route : Config → Bytes → Bytes → Option K8sRouteConfig
resolve_route c hostname scheme = elim (lookup c.http.k8s.routes hostname) [
  | some r ↦ some r
  | none ↦ parse_dynamic_hostname hostname c.http.k8s.dynamic_host scheme
]

pub no_route : Bytes → Error
no_route hostname = codes "no route configured for hostname: " ++ hostname

pub no_client : Bytes → Error → Error
no_client context e =
    codes "failed to get k8s client for context " ++ (context ++ (codes ": " ++ e))

pub no_tcp_route : ℤ → Error
no_tcp_route port = codes "no TCP route configured for port " ++ format_int port

-- `fmt.Sprintf("tcp:%d", localPort)`
unfoldable pub tunnel_id : ℤ → Bytes
tunnel_id port = codes "tcp:" ++ format_int port

-- The kubeconfigs of TCP, or else those of HTTP.
unfoldable pub tcp_kubeconfigs : Config → List Bytes
tcp_kubeconfigs c =
    if is_empty c.tcp.k8s.resolved_kubeconfigs
    then c.http.k8s.resolved_kubeconfigs
    else c.tcp.k8s.resolved_kubeconfigs

module _ {Client : Type 0} where
  -- `NewManager`
  unfoldable pub new_manager : Config → Manager Client
  new_manager config = record {
    config = config;
    store = [];
    tunnels = [];
    tcp_tunnels = [];
    clients = [];
  }

  -- The tunnel at a place, and the store with another tunnel there.
  abbrev pub tunnel_at : Manager Client → ℕ → Option (Tunnel Client)
  tunnel_at m i = get_elem? m.store i

  unfoldable pub put_tunnel : Manager Client → ℕ → Tunnel Client → Manager Client
  put_tunnel m i t = record m { store = set m.store i t }

  -- The new tunnel enters the store and the map.
  unfoldable pub add_tunnel :
      ℕ
      → Bytes
      → K8sRouteConfig
      → Result Error Client × Clients Client
      → Manager Client
      → Result Error ℕ × Manager Client
  add_tunnel now hostname r (err e, clients) m =
      (err (no_client r.context e), record m { clients = clients })
  add_tunnel now hostname r (ok client, clients) m = (
    ok (length m.store),
    record m {
      store =
          m.store
          ++ new_tunnel hostname r client m.config.http.listen_addr m.config.verbose now ∷ [];
      tunnels = insert m.tunnels hostname (length m.store);
      clients = clients;
    },
  )

  unfoldable pub create_tunnel :
      Connect Client
      → ℕ
      → Bytes
      → Option K8sRouteConfig
      → Manager Client
      → Result Error ℕ × Manager Client
  create_tunnel connect now hostname none m = (err (no_route hostname), m)
  create_tunnel connect now hostname (some r) m =
      add_tunnel now hostname r
        (get_client_for_context connect m.clients m.config.http.k8s.resolved_kubeconfigs r.context)
        m

  -- A tunnel that is found is kept if it is live, and leaves the map otherwise.
  unfoldable pub reuse :
      Connect Client
      → ℕ
      → Bytes
      → Bytes
      → Option ℕ
      → Option (Tunnel Client)
      → Manager Client
      → Result Error ℕ × Manager Client
  reuse connect now hostname scheme (some i) (some t) m =
      if is_live t.state
      then (ok i, put_tunnel m i (touch now t))
      else create_tunnel connect now hostname (resolve_route m.config hostname scheme)
          (record m { tunnels = delete m.tunnels hostname })
  reuse connect now hostname scheme _ _ m =
      create_tunnel connect now hostname (resolve_route m.config hostname scheme) m

  abbrev pub place_at : Manager Client → Option ℕ → Option (Tunnel Client)
  place_at m none = none
  place_at m (some i) = tunnel_at m i

  -- `GetOrCreateTunnel`
  unfoldable pub get_or_create_tunnel :
      Connect Client → ℕ → Bytes → Bytes → Manager Client → Result Error ℕ × Manager Client
  get_or_create_tunnel connect now hostname scheme m =
      let found = lookup m.tunnels hostname in
      reuse connect now hostname scheme found (place_at m found) m

  unfoldable pub add_tcp_tunnel :
      ℕ
      → ℤ
      → TcpRouteConfig
      → Result Error Client × Clients Client
      → Manager Client
      → Result Error ℕ × Manager Client
  add_tcp_tunnel now port r (err e, clients) m =
      (err (no_client r.context e), record m { clients = clients })
  add_tcp_tunnel now port r (ok client, clients) m = (
    ok (length m.store),
    record m {
      store =
          m.store
          ++ new_tunnel (tunnel_id port) (to_k8s_route_config r) client [] m.config.verbose now
            ∷ [];
      tcp_tunnels = insert m.tcp_tunnels port (length m.store);
      clients = clients;
    },
  )

  unfoldable pub create_tcp_tunnel :
      Connect Client
      → ℕ
      → ℤ
      → Option TcpRouteConfig
      → Manager Client
      → Result Error ℕ × Manager Client
  create_tcp_tunnel connect now port none m = (err (no_tcp_route port), m)
  create_tcp_tunnel connect now port (some r) m =
      add_tcp_tunnel now port r
        (get_client_for_context connect m.clients (tcp_kubeconfigs m.config) r.context) m

  unfoldable pub reuse_tcp :
      Connect Client
      → ℕ
      → ℤ
      → Option ℕ
      → Option (Tunnel Client)
      → Manager Client
      → Result Error ℕ × Manager Client
  reuse_tcp connect now port (some i) (some t) m =
      if is_live t.state
      then (ok i, put_tunnel m i (touch now t))
      else create_tcp_tunnel connect now port (lookup m.config.tcp.k8s.routes port)
          (record m { tcp_tunnels = delete m.tcp_tunnels port })
  reuse_tcp connect now port _ _ m =
      create_tcp_tunnel connect now port (lookup m.config.tcp.k8s.routes port) m

  -- `GetOrCreateTCPTunnel`
  unfoldable pub get_or_create_tcp_tunnel :
      Connect Client → ℕ → ℤ → Manager Client → Result Error ℕ × Manager Client
  get_or_create_tcp_tunnel connect now port m =
      let found = lookup m.tcp_tunnels port in reuse_tcp connect now port found (place_at m found) m
