-- ===== src/Config.antt =====
-- internal/config/types.go, config.go (the type `Config`), defaults.go and operations.go: the
-- configuration as it is after loading, and the methods of its parts. A Go string is its bytes and
-- the empty string is the unset value; `int` and `time.Duration` are integers; a pointer is an
-- option. The fields that only printing reads are kept as well.
pub mod Errors
pub mod Host
pub mod Validate
pub mod Load
mod Tests
use lazyfwd.Base.{
  Bool, true, false, ◌||◌, Option, none, some, List, [], ◌∷◌, ◌++◌, Bytes, codes, is_empty,
  if◌then◌else◌,
}
use lazyfwd.Base.Int.{ℤ, pos, leb_ℤ, ltb_ℤ}
use lazyfwd.GoMap.{GoMap}

pub record K8sRouteConfig : Type 0 where
  pub context : Bytes
  pub namespace : Bytes
  pub service : Bytes
  pub pod : Bytes
  pub port : ℤ
  pub scheme : Bytes

pub record K8sConfig : Type 0 where
  pub kubeconfig : Bytes
  pub resolved_kubeconfigs : List Bytes
  pub routes : GoMap Bytes K8sRouteConfig
  pub dynamic_host : Bytes

pub record HttpConfig : Type 0 where
  pub listen_addr : Bytes
  pub idle_timeout : ℤ
  pub k8s : K8sConfig

pub record TcpRouteConfig : Type 0 where
  pub context : Bytes
  pub namespace : Bytes
  pub service : Bytes
  pub pod : Bytes
  pub port : ℤ

pub record CreateConfig : Type 0 where
  pub image : Bytes
  pub command : List Bytes
  pub timeout : ℤ

pub record ViaConfig : Type 0 where
  pub pod : Bytes
  pub service : Bytes
  pub container : Bytes
  pub create : Option CreateConfig

pub record TargetConfig : Type 0 where
  pub host : Bytes
  pub port : ℤ

pub record JumpRouteConfig : Type 0 where
  pub context : Bytes
  pub namespace : Bytes
  pub via : ViaConfig
  pub target : TargetConfig
  pub method : Bytes

pub record TcpK8sConfig : Type 0 where
  pub kubeconfig : Bytes
  pub resolved_kubeconfigs : List Bytes
  pub routes : GoMap ℤ TcpRouteConfig
  pub jump : GoMap ℤ JumpRouteConfig

pub record TcpConfig : Type 0 where
  pub idle_timeout : ℤ
  pub k8s : TcpK8sConfig

pub record Config : Type 0 where
  pub api_version : Bytes
  pub verbose : Bool
  pub auto_reload_config : Option Bool
  pub exec_path : List Bytes
  pub http : HttpConfig
  pub tcp : TcpConfig

abbrev pub current_api_version : Bytes
current_api_version = codes "autotunnel/v1"

-- `port <= 0 || port > 65535`
unfoldable pub is_bad_port : ℤ → Bool
is_bad_port p = leb_ℤ p (pos 0) || ltb_ℤ (pos 65535) p

-- `K8sRouteConfig.TargetName`
unfoldable pub target_name : K8sRouteConfig → Bytes
target_name r = if is_empty r.pod then r.service else r.pod

-- `K8sRouteConfig.TargetDisplay`
unfoldable pub target_display : K8sRouteConfig → Bytes
target_display r = if is_empty r.pod then r.service else codes "pod/" ++ r.pod

-- `TCPRouteConfig.TargetName`: here the service comes first.
unfoldable pub tcp_target_name : TcpRouteConfig → Bytes
tcp_target_name r = if is_empty r.service then r.pod else r.service

-- `TCPRouteConfig.TargetDisplay`
unfoldable pub tcp_target_display : TcpRouteConfig → Bytes
tcp_target_display r = if is_empty r.pod then r.service else codes "pod/" ++ r.pod

-- `ToK8sRouteConfig`
unfoldable pub to_k8s_route_config : TcpRouteConfig → K8sRouteConfig
to_k8s_route_config r = record {
  context = r.context;
  namespace = r.namespace;
  service = r.service;
  pod = r.pod;
  port = r.port;
  scheme = codes "tcp";
}

-- `GetMethod`
unfoldable pub get_method : JumpRouteConfig → Bytes
get_method r = if is_empty r.method then codes "socat" else r.method

-- `ViaConfig.TargetDisplay`
unfoldable pub via_target_display : ViaConfig → Bytes
via_target_display v = if is_empty v.pod then codes "svc/" ++ v.service else codes "pod/" ++ v.pod

-- `ShouldAutoReload`: unset means yes.
unfoldable pub should_auto_reload : Config → Bool
should_auto_reload c = elim c.auto_reload_config [ none ↦ true | some b ↦ b ]

-- `DefaultConfig`: zero values, and empty maps (a nil map reads as an empty one).
unfoldable pub default_config : Config
default_config = record {
  api_version = [];
  verbose = false;
  auto_reload_config = none;
  exec_path = [];
  http = record {
    listen_addr = [];
    idle_timeout = pos 0;
    k8s = record { kubeconfig = []; resolved_kubeconfigs = []; routes = []; dynamic_host = [] };
  };
  tcp = record {
    idle_timeout = pos 0;
    k8s = record { kubeconfig = []; resolved_kubeconfigs = []; routes = []; jump = [] };
  };
}
