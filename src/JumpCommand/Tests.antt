-- ===== src/JumpCommand/Tests.antt =====
-- A command for an IPv6 address, and one that is refused.
use lazyfwd.Base.{◌≡◌, refl, none, [], Bytes, codes, ok, err}
use lazyfwd.Base.Int.{pos}
use lazyfwd.Text.{format_int, format_nat, digits}
use lazyfwd.Net.Ip.{parse_ip, parse_by, parse_v6, run_v6, v6_loop, v4_fields, is_v4}
use lazyfwd.Config.{TargetConfig, JumpRouteConfig, is_bad_port}
use lazyfwd.Config.Host.{is_valid_target_host, matches_hostname, is_alnum}
use lazyfwd.Config.Validate.{validate_jump_route}
use lazyfwd.JumpCommand.{
  command, invalid_target_host, IsCommand, build_forward_command, accepted_route-IsCommand,
}

abbrev database : TargetConfig
database = record { host = codes "2001:db8::1"; port = pos 5432 }

abbrev route : JumpRouteConfig
route = record {
  context = codes "kind";
  namespace = codes "default";
  via = record { pod = codes "bastion"; service = []; container = []; create = none };
  target = database;
  method = [];
}

built : build_forward_command database ≡ ok (command (codes "[2001:db8::1]") (codes "5432"))
unfolding build_forward_command is_valid_target_host parse_ip parse_by parse_v6 run_v6 v6_loop
    v4_fields is_v4 format_int format_nat digits
built = refl

route_accepted : validate_jump_route route ≡ ok tt
unfolding validate_jump_route is_valid_target_host parse_ip parse_by parse_v6 run_v6 v6_loop
    is_bad_port
route_accepted = refl

accepted_route-IsCommand_example :
    (cmd : Bytes) × (build_forward_command route.target ≡ ok cmd) × IsCommand route.target cmd
accepted_route-IsCommand_example = accepted_route-IsCommand route route_accepted

injection_refused :
    build_forward_command (record { host = codes "db;reboot"; port = pos 5432 })
    ≡ err (invalid_target_host (codes "db;reboot"))
unfolding build_forward_command is_valid_target_host parse_ip parse_by matches_hostname is_alnum
injection_refused = refl
