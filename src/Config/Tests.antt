-- ===== src/Config/Tests.antt =====
-- Configurations that are accepted and refused, hosts and images.
use lazyfwd.Base.{
  ◌≡◌, ◌↔◌, refl, true, false, not, ◌&&◌, none, [], ◌∷◌, bytes_beq, codes, length, all_of, is_empty,
  leb, ok, err,
}
use lazyfwd.Base.Int.{pos}
use lazyfwd.GoMap.{lookup, insert, delete}
use lazyfwd.Text.{last_index, has_prefix, atoi, scan_digits, scan}
use lazyfwd.Net.Ip.{parse_ip, parse_by, parse_v6, run_v6, v6_loop, v4_fields}
use lazyfwd.Config.{Config, JumpRouteConfig, current_api_version, is_bad_port}
use lazyfwd.Config.Errors.{routes, port_already_used, jump_route_error}
use lazyfwd.Config.Host.{
  is_valid_target_host, is_valid_image_name, matches_image, is_metachar, image_name_exact,
}
use lazyfwd.Config.Validate.{
  extract_port, validate_local_port, validate_route_base, validate_create, validate_target,
  validate_jump_route, validate_http_routes, validate_tcp_routes, validate_jump_routes,
  validate_tcp_entries, validate,
}
use lazyfwd.Config.Validate.Spec.{IsValid}
use lazyfwd.Config.Validate.Complete.{validate_exact}

abbrev database : JumpRouteConfig
database = record {
  context = codes "kind";
  namespace = codes "default";
  via = record { pod = codes "bastion"; service = []; container = []; create = none };
  target = record { host = codes "db.internal"; port = pos 5432 };
  method = codes "socat";
}

-- A configuration with a route of each kind.
abbrev config_of : Config
config_of = record {
  api_version = current_api_version;
  verbose = false;
  auto_reload_config = none;
  exec_path = [];
  http = record {
    listen_addr = codes ":8989";
    idle_timeout = pos 60;
    k8s = record {
      kubeconfig = [];
      resolved_kubeconfigs = [];
      routes =
          (
            codes "nginx.localhost",
            record {
              context = codes "kind";
              namespace = codes "default";
              service = codes "nginx";
              pod = [];
              port = pos 80;
              scheme = [];
            },
          )
          ∷ [];
      dynamic_host = [];
    };
  };
  tcp = record {
    idle_timeout = pos 0;
    k8s = record {
      kubeconfig = [];
      resolved_kubeconfigs = [];
      routes =
          (
            pos 5433,
            record {
              context = codes "kind";
              namespace = codes "default";
              service = [];
              pod = codes "pg-0";
              port = pos 5432;
            },
          )
          ∷ [];
      jump = (pos 5434, database) ∷ [];
    };
  };
}

config_accepted : validate config_of ≡ ok tt
unfolding validate validate_tcp_entries validate_http_routes validate_tcp_routes
    validate_jump_routes validate_jump_route validate_target validate_create validate_route_base
    validate_local_port extract_port is_bad_port lookup insert delete last_index has_prefix atoi
    scan_digits scan bytes_beq is_valid_target_host parse_ip parse_by parse_v6 run_v6 v6_loop
    v4_fields
config_accepted = refl

validate_exact_example : (validate config_of ≡ ok tt) ↔ IsValid config_of
validate_exact_example = validate_exact config_of

-- A second entry for one local port.
twice_refused :
    validate_jump_routes (pos 8989) ((pos 5433, database) ∷ []) ((pos 5433, routes) ∷ [])
    ≡ err (jump_route_error (pos 5433) (port_already_used routes))
unfolding validate_jump_routes validate_local_port is_bad_port lookup
twice_refused = refl

v6_accepted : is_valid_target_host (codes "2001:db8::1") ≡ true
unfolding is_valid_target_host parse_ip parse_by parse_v6 run_v6 v6_loop v4_fields
v6_accepted = refl

image_name_exact_example : is_valid_image_name (codes "alpine;rm") ≡ (
    not (is_empty (codes "alpine;rm"))
    && leb (length (codes "alpine;rm")) 256
    && matches_image (codes "alpine;rm"))
image_name_exact_example = image_name_exact (codes "alpine;rm")

image_refused : is_valid_image_name (codes "alpine;rm") ≡ false
unfolding is_valid_image_name all_of is_metachar
image_refused = refl
