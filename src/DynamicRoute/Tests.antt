-- ===== src/DynamicRoute/Tests.antt =====
-- Dynamic hostnames that are parsed, and some that are not.
use lazyfwd.Base.{◌≡◌, refl, true, false, none, some, Bytes, bytes_beq, codes, arith, ok}
use lazyfwd.Base.Int.{pos}
use lazyfwd.Text.{
  has_prefix, last_index, has_suffix, trim_suffix, atoi, scan_digits, scan, format_nat, digits,
}
use lazyfwd.Config.{K8sRouteConfig, is_bad_port}
use lazyfwd.Config.Validate.{validate_route_base}
use lazyfwd.DynamicRoute.{build_route, parse_dynamic_hostname}
use lazyfwd.DynamicRoute.Sound.{Parts, spell, route_of, IsSpelled, parse_dynamic_hostname_sound}
use lazyfwd.DynamicRoute.RoundTrip.{IsReadable, parse_dynamic_hostname-spell}
use lazyfwd.DynamicRoute.Valid.{dynamic_route-accepted}

abbrev nginx : Parts
nginx = record {
  is_service = true;
  name = codes "nginx-v2";
  port_str = codes "80";
  namespace = codes "default";
  context = codes "kind.local";
}

abbrev nginx_host : Bytes
nginx_host = codes "nginx-v2-80.svc.default.ns.kind.local.cx.dyn.localhost"

abbrev nginx_route : K8sRouteConfig
nginx_route = record {
  context = codes "kind.local";
  namespace = codes "default";
  service = codes "nginx-v2";
  pod = codes "";
  port = pos 80;
  scheme = codes "http";
}

nginx-IsReadable : IsReadable nginx 80
unfolding last_index has_prefix format_nat digits
nginx-IsReadable = record {
  name_given = cc;
  namespace_given = cc;
  context_given = cc;
  namespace_label = (cc, (cc, (cc, (cc, (cc, (cc, (cc, tt)))))));
  pod_label = λ e. cc (e);
  context_plain = refl;
  port_text = refl;
  port_positive = omega arith;
  port_bound = omega arith;
}

nginx_parsed :
    parse_dynamic_hostname nginx_host (codes "dyn.localhost") (codes "http") ≡ some nginx_route
unfolding parse_dynamic_hostname has_suffix trim_suffix last_index has_prefix atoi scan_digits scan
    build_route is_bad_port bytes_beq
nginx_parsed = refl

parse_dynamic_hostname-spell_example :
    parse_dynamic_hostname
      (spell nginx (codes "dyn.localhost"))
      (codes "dyn.localhost")
      (codes "https")
    ≡ some (route_of nginx (pos 80) (codes "https"))
parse_dynamic_hostname-spell_example =
    parse_dynamic_hostname-spell nginx 80 (codes "dyn.localhost") (codes "https") (cc)
      nginx-IsReadable

parse_dynamic_hostname-sound_example :
    IsSpelled nginx_host (codes "dyn.localhost") (codes "http") nginx_route
parse_dynamic_hostname-sound_example =
    parse_dynamic_hostname_sound nginx_host (codes "dyn.localhost") (codes "http") nginx_route
      nginx_parsed

dynamic_route-accepted_example :
    validate_route_base nginx_route.context nginx_route.namespace nginx_route.service
      nginx_route.pod nginx_route.port
    ≡ ok tt
dynamic_route-accepted_example =
    dynamic_route-accepted nginx_host (codes "dyn.localhost") (codes "http") nginx_route
      nginx_parsed

port_zero_refused :
    parse_dynamic_hostname
      (codes "nginx-0.svc.default.ns.kind.cx.dyn.localhost")
      (codes "dyn.localhost")
      (codes "http")
    ≡ none
unfolding parse_dynamic_hostname has_suffix trim_suffix last_index has_prefix atoi scan_digits scan
    build_route is_bad_port bytes_beq
port_zero_refused = refl

-- `strconv.Atoi` takes a sign, so that a port may be written with one.
signed_port_read :
    parse_dynamic_hostname
      (codes "nginx-+80.pod.default.ns.kind.cx.dyn.localhost")
      (codes "dyn.localhost")
      (codes "http")
    ≡ some
        (build_route false (codes "nginx") (codes "kind") (codes "default") (pos 80) (codes "http"))
unfolding parse_dynamic_hostname has_suffix trim_suffix last_index has_prefix atoi scan_digits scan
    build_route is_bad_port bytes_beq
signed_port_read = refl
