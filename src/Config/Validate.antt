-- ===== src/Config/Validate.antt =====
-- internal/config/validate.go: `Validate` and its helpers. Each `range` over a map is a loop over
-- its entries; `seenPorts` is passed along.
pub mod Spec
pub mod Routes
pub mod Ports
pub mod Sound
pub mod Complete
use lazyfwd.Base.{
  ℕ, ◌+◌, Bool, true, false, not, ◌&&◌, ◌||◌, Option, none, some, List, [], ◌∷◌, Bytes, codes, drop,
  is_empty, ◌==◌, bytes_eq, bytes_beq, if◌then◌else◌, Result, ok, err, ◌>>=◌, ◌>>◌, refuse, map_err,
}
use lazyfwd.Base.Int.{ℤ, pos, leb_ℤ, ltb_ℤ, int_eq}
use lazyfwd.GoMap.{GoMap, lookup, insert}
use lazyfwd.Text.{last_index, atoi}
use lazyfwd.Config.{
  Config, K8sRouteConfig, TcpRouteConfig, JumpRouteConfig, ViaConfig, CreateConfig, TargetConfig,
  current_api_version, is_bad_port,
}
use lazyfwd.Config.Errors.{
  Source, routes, jump, RouteError, local_port_range, http_port_conflict, port_already_used,
  context_required, namespace_required, target_required, target_ambiguous, port_range, via_required,
  via_ambiguous, create_with_service, create_needs_pod, create_image_required, create_image_invalid,
  target_host_required, target_host_invalid, target_port_range, unsupported_method, AddressError,
  no_port, bad_port, ConfigError, api_version_unsupported, listen_required,
  idle_timeout_not_positive, route_error, tcp_idle_timeout_negative, listen_invalid,
  tcp_route_error, jump_route_error,
}
use lazyfwd.Config.Host.{is_valid_image_name, is_valid_target_host}

port_after : Option ℤ → Result AddressError ℤ
port_after none = err bad_port
port_after (some p) = ok p

port_behind : Bytes → Option ℕ → Result AddressError ℤ
unfolding port_after
port_behind addr none = err no_port
port_behind addr (some idx) = port_after (atoi (drop (idx + 1) addr))

-- `extractPort`
unfoldable pub extract_port : Bytes → Result AddressError ℤ
unfolding port_behind
extract_port addr = port_behind addr (last_index addr (codes ":"))

claim : GoMap ℤ Source → ℤ → Source → Option Source → Result RouteError (GoMap ℤ Source)
claim seen local_port source (some existing) = err (port_already_used existing)
claim seen local_port source none = ok (insert seen local_port source)

-- `validateLocalPort`
unfoldable pub validate_local_port :
    ℤ → ℤ → GoMap ℤ Source → Source → Result RouteError (GoMap ℤ Source)
unfolding claim
validate_local_port local_port http_port seen source = do
  refuse (is_bad_port local_port) local_port_range
  refuse (local_port == http_port) http_port_conflict
  claim seen local_port source (lookup seen local_port)

-- `validateRouteBase`
unfoldable pub validate_route_base :
    Bytes → Bytes → Bytes → Bytes → ℤ → Result RouteError (Unit {0})
validate_route_base context namespace service pod port = do
  refuse (is_empty context) context_required
  refuse (is_empty namespace) namespace_required
  refuse (is_empty service && is_empty pod) target_required
  refuse (not (is_empty service) && not (is_empty pod)) target_ambiguous
  refuse (is_bad_port port) port_range

-- The checks of `via.create`.
unfoldable pub validate_create : ViaConfig → Option CreateConfig → Result RouteError (Unit {0})
validate_create via none = ok tt
validate_create via (some create) = do
  refuse (not (is_empty via.service)) create_with_service
  refuse (is_empty via.pod) create_needs_pod
  refuse (is_empty create.image) create_image_required
  refuse (not (is_valid_image_name create.image)) (create_image_invalid create.image)

unfoldable pub validate_target : TargetConfig → Result RouteError (Unit {0})
validate_target target = do
  refuse (is_empty target.host) target_host_required
  refuse (not (is_valid_target_host target.host)) (target_host_invalid target.host)
  refuse (is_bad_port target.port) target_port_range

-- The body of the loop over `jump`, behind the local port.
unfoldable pub validate_jump_route : JumpRouteConfig → Result RouteError (Unit {0})
unfolding validate_create validate_target
validate_jump_route route = do
  refuse (is_empty route.context) context_required
  refuse (is_empty route.namespace) namespace_required
  refuse (is_empty route.via.pod && is_empty route.via.service) via_required
  refuse (not (is_empty route.via.pod) && not (is_empty route.via.service)) via_ambiguous
  validate_create route.via route.via.create
  validate_target route.target
  refuse (not (is_empty route.method) && not (route.method == codes "socat"))
      (unsupported_method route.method)

-- The loop over `http.k8s.routes`.
unfoldable pub validate_http_routes : GoMap Bytes K8sRouteConfig → Result ConfigError (Unit {0})
validate_http_routes [] = ok tt
validate_http_routes ((hostname, r) ∷ rest) = do
  map_err (route_error hostname) (validate_route_base r.context r.namespace r.service r.pod r.port)
  validate_http_routes rest

-- The loop over `tcp.k8s.routes`.
unfoldable pub validate_tcp_routes :
    ℤ → GoMap ℤ TcpRouteConfig → GoMap ℤ Source → Result ConfigError (GoMap ℤ Source)
validate_tcp_routes http_port [] seen = ok seen
validate_tcp_routes http_port ((local_port, r) ∷ rest) seen = do
  seen' ←
      map_err (tcp_route_error local_port) (validate_local_port local_port http_port seen routes)
  map_err (tcp_route_error local_port)
      (validate_route_base r.context r.namespace r.service r.pod r.port)
  validate_tcp_routes http_port rest seen'

-- The loop over `tcp.k8s.jump`.
unfoldable pub validate_jump_routes :
    ℤ → GoMap ℤ JumpRouteConfig → GoMap ℤ Source → Result ConfigError (GoMap ℤ Source)
validate_jump_routes http_port [] seen = ok seen
validate_jump_routes http_port ((local_port, r) ∷ rest) seen = do
  seen' ← map_err (jump_route_error local_port) (validate_local_port local_port http_port seen jump)
  map_err (jump_route_error local_port) (validate_jump_route r)
  validate_jump_routes http_port rest seen'

-- `validateTCP`, behind the test that there is a route.
unfoldable pub validate_tcp_entries : Config → Result ConfigError (Unit {0})
validate_tcp_entries c = do
  refuse (ltb_ℤ c.tcp.idle_timeout (pos 0)) tcp_idle_timeout_negative
  http_port ← map_err listen_invalid (extract_port c.http.listen_addr)
  seen ← validate_tcp_routes http_port c.tcp.k8s.routes []
  all ← validate_jump_routes http_port c.tcp.k8s.jump seen
  ok tt

-- `validateTCP`
unfoldable pub validate_tcp : Config → Result ConfigError (Unit {0})
unfolding validate_tcp_entries
validate_tcp c =
    if is_empty c.tcp.k8s.routes && is_empty c.tcp.k8s.jump then ok tt else validate_tcp_entries c

-- `Validate`
unfoldable pub validate : Config → Result ConfigError (Unit {0})
unfolding validate_tcp
validate c = do
  refuse (not (is_empty c.api_version) && not (c.api_version == current_api_version))
      (api_version_unsupported c.api_version)
  refuse (is_empty c.http.listen_addr) listen_required
  refuse (leb_ℤ c.http.idle_timeout (pos 0)) idle_timeout_not_positive
  validate_http_routes c.http.k8s.routes
  validate_tcp c
