-- ===== src/Config/Validate/Spec.antt =====
-- What a configuration has to satisfy, stated without the order of the checks.
use lazyfwd.Base.{
  ◌≤◌, ◌≡◌, ◌≢◌, ◌⊎◌, true, Option, none, some, List, [], ◌∷◌, ◌++◌, Bytes, codes, All, ok,
}
use lazyfwd.Base.Int.{ℤ, pos, negsuc}
pub use lazyfwd.GoMap.{keys}
use lazyfwd.Config.{
  Config, K8sRouteConfig, TcpRouteConfig, JumpRouteConfig, ViaConfig, CreateConfig,
  current_api_version,
}
use lazyfwd.Config.Host.{is_valid_image_name, is_valid_target_host}
use lazyfwd.Config.Validate.{extract_port}

-- 1 to 65535
abbrev pub IsPort : ℤ → Type 0
IsPort (pos n) = (1 ≤ n) × (n ≤ 65535)
IsPort (negsuc n) = ⊥

abbrev pub IsPositive : ℤ → Type 0
IsPositive (pos n) = 1 ≤ n
IsPositive (negsuc n) = ⊥

abbrev pub IsNonnegative : ℤ → Type 0
IsNonnegative (pos n) = Unit
IsNonnegative (negsuc n) = ⊥

-- Exactly one of two names is given.
abbrev pub OneOf : Bytes → Bytes → Type 0
OneOf a b = ((a ≢ []) × (b ≡ [])) ⊎ ((a ≡ []) × (b ≢ []))

pub record IsRoute (context namespace service pod : Bytes) (port : ℤ) : Type 0 where
  pub context_given : context ≢ []
  pub namespace_given : namespace ≢ []
  pub one_target : OneOf service pod
  pub port_valid : IsPort port

abbrev pub IsK8sRoute : K8sRouteConfig → Type 0
IsK8sRoute r = IsRoute r.context r.namespace r.service r.pod r.port

abbrev pub IsTcpRoute : TcpRouteConfig → Type 0
IsTcpRoute r = IsRoute r.context r.namespace r.service r.pod r.port

-- A pod is created only for a pod's name and from a valid image.
abbrev pub IsCreate : ViaConfig → Option CreateConfig → Type 0
IsCreate via none = Unit
IsCreate via (some c) =
    (via.service ≡ []) × (via.pod ≢ []) × (c.image ≢ []) × (is_valid_image_name c.image ≡ true)

pub record IsJumpRoute (r : JumpRouteConfig) : Type 0 where
  pub context_given : r.context ≢ []
  pub namespace_given : r.namespace ≢ []
  pub one_via : OneOf r.via.pod r.via.service
  pub create_valid : IsCreate r.via r.via.create
  pub host_given : r.target.host ≢ []
  pub host_valid : is_valid_target_host r.target.host ≡ true
  pub port_valid : IsPort r.target.port
  pub method_known : (r.method ≡ []) ⊎ (r.method ≡ codes "socat")

abbrev pub Lacks {ℓ} : {K : Type ℓ} → K → List K → Type ℓ
Lacks k = All (λ j. j ≢ k)

-- No two entries are equal.
abbrev pub Distinct {ℓ} : {K : Type ℓ} → List K → Type ℓ
Distinct [] = Unit
Distinct (k ∷ l) = Lacks k l × Distinct l

-- A listening port of TCP: in range, and not that of HTTP.
abbrev pub IsLocalPort : ℤ → ℤ → Type 0
IsLocalPort http_port p = IsPort p × (p ≢ http_port)

abbrev pub TcpEntry : ℤ → ℤ × TcpRouteConfig → Type 0
TcpEntry http_port (p, r) = IsLocalPort http_port p × IsTcpRoute r

abbrev pub JumpEntry : ℤ → ℤ × JumpRouteConfig → Type 0
JumpEntry http_port (p, r) = IsLocalPort http_port p × IsJumpRoute r

abbrev pub HttpEntry : Bytes × K8sRouteConfig → Type 0
HttpEntry (h, r) = IsK8sRoute r

-- The TCP part, where there is an entry in it.
pub record IsTcp (c : Config) (http_port : ℤ) : Type 0 where
  pub timeout_valid : IsNonnegative c.tcp.idle_timeout
  pub port_known : extract_port c.http.listen_addr ≡ ok http_port
  pub routes_valid : All (TcpEntry http_port) c.tcp.k8s.routes
  pub jumps_valid : All (JumpEntry http_port) c.tcp.k8s.jump
  pub ports_distinct : Distinct (keys c.tcp.k8s.routes ++ keys c.tcp.k8s.jump)

pub record IsValid (c : Config) : Type 0 where
  pub version_known : (c.api_version ≡ []) ⊎ (c.api_version ≡ current_api_version)
  pub listen_given : c.http.listen_addr ≢ []
  pub timeout_valid : IsPositive c.http.idle_timeout
  pub routes_valid : All HttpEntry c.http.k8s.routes
  pub tcp_valid :
      ((c.tcp.k8s.routes ≡ []) × (c.tcp.k8s.jump ≡ [])) ⊎ ((http_port : ℤ) × IsTcp c http_port)
