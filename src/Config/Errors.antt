-- ===== src/Config/Errors.antt =====
-- internal/config/validate.go: the errors, one constructor for each message, with the values that
-- the message quotes.
use lazyfwd.Base.{Bytes}
use lazyfwd.Base.Int.{ℤ}

-- The `source` of a local port.
pub data Source : Type 0 where
  routes jump : Source

-- The message behind the `routeID` of an error.
pub data RouteError : Type 0 where
  local_port_range : RouteError
  http_port_conflict : RouteError
  port_already_used : Source → RouteError
  context_required namespace_required : RouteError
  target_required target_ambiguous : RouteError
  port_range : RouteError
  via_required via_ambiguous : RouteError
  create_with_service create_needs_pod create_image_required : RouteError
  create_image_invalid : Bytes → RouteError
  target_host_required : RouteError
  target_host_invalid : Bytes → RouteError
  target_port_range : RouteError
  unsupported_method : Bytes → RouteError

pub data AddressError : Type 0 where
  no_port bad_port : AddressError

pub data ConfigError : Type 0 where
  api_version_unsupported : Bytes → ConfigError
  listen_required idle_timeout_not_positive : ConfigError
  route_error : Bytes → RouteError → ConfigError
  tcp_idle_timeout_negative : ConfigError
  listen_invalid : AddressError → ConfigError
  tcp_route_error : ℤ → RouteError → ConfigError
  jump_route_error : ℤ → RouteError → ConfigError
