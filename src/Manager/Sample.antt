-- ===== src/Manager/Sample.antt =====
-- A manager with one route and one tunnel, on which the tests run.
use lazyfwd.Base.{
  ℕ, zero, ◌≡◌, refl, false, none, some, [], ◌∷◌, Bytes, bytes_beq, bytes_eq, bytes_beq_iff, subst,
  codes, get_elem?, ok, err, Bool-cases, inl, inr, ◌==◌,
}
use lazyfwd.Base.Int.{pos}
use lazyfwd.Config.Validate.{
  extract_port, validate_local_port, validate_route_base, validate_http_routes, validate_tcp_routes,
  validate_jump_routes, validate_tcp_entries, validate,
}
use lazyfwd.Config.Validate.Spec.{IsValid}
use lazyfwd.Config.Validate.Sound.{validate_sound}
use lazyfwd.Text.{last_index, has_prefix, atoi, scan_digits, scan}
use lazyfwd.GoMap.{insert, delete, lookup}
use lazyfwd.Config.{is_bad_port, Config, K8sRouteConfig}
use lazyfwd.ClientFactory.{Connect}
use lazyfwd.Tunnel.{Tunnel, State, running, failed, Chan, open_chan, closed_chan}
use lazyfwd.Manager.{Manager}
use lazyfwd.Manager.Wf.{IsWf}

-- A client is the name of its context; one context has none.
abbrev pub connect : Connect Bytes
connect paths [] = err (codes "no such context")
connect paths (c ∷ s) = ok (c ∷ s)

abbrev pub nginx : K8sRouteConfig
nginx = record {
  context = codes "kind";
  namespace = codes "default";
  service = codes "nginx";
  pod = [];
  port = pos 80;
  scheme = [];
}

abbrev pub config_of : Config
config_of = record {
  api_version = [];
  verbose = false;
  auto_reload_config = none;
  exec_path = [];
  http = record {
    listen_addr = codes ":8989";
    idle_timeout = pos 60;
    k8s = record {
      kubeconfig = [];
      resolved_kubeconfigs = codes "/home/k" ∷ [];
      routes = (codes "nginx", nginx) ∷ [];
      dynamic_host = [];
    };
  };
  tcp = record {
    idle_timeout = pos 0;
    k8s = record {
      kubeconfig = [];
      resolved_kubeconfigs = [];
      routes =
          (
            pos 5433,
            record {
              context = codes "kind";
              namespace = codes "default";
              service = codes "pg";
              pod = [];
              port = pos 5432;
            },
          )
          ∷ [];
      jump = [];
    };
  };
}

abbrev pub tunnel_in : State → Chan → ℕ → Tunnel Bytes
tunnel_in s c last = record {
  hostname = codes "nginx";
  config = nginx;
  listen_addr = codes ":8989";
  verbose = false;
  client = codes "kind";
  state = s;
  local_port = 0;
  last_access = last;
  stop_chan = c;
  last_error = none;
}

-- The manager with one failed tunnel, and the one with a running tunnel in its place.
abbrev pub with_tunnel : Tunnel Bytes → Manager Bytes
with_tunnel t = record {
  config = config_of;
  store = t ∷ [];
  tunnels = (codes "nginx", 0) ∷ [];
  tcp_tunnels = [];
  clients = (codes "kind", codes "kind") ∷ [];
}

abbrev pub failed_one : Manager Bytes
failed_one = with_tunnel (tunnel_in failed closed_chan 0)

abbrev pub running_one : Manager Bytes
running_one = with_tunnel (tunnel_in running open_chan 0)

entry :
    (h : Bytes) (i : ℕ)
    → lookup ((codes "nginx", zero) ∷ []) h ≡ some i
    → (0 ≡ i) × (codes "nginx" ≡ h)
unfolding lookup
entry h i e = elim (Bool-cases (codes "nginx" == h)) [
  | inl q ↦ (cc (rw q at e), (bytes_beq_iff (codes "nginx") h).0 q)
  | inr q ↦ cc (rw q at e)
]

pub with_tunnel-IsWf : (s : State) (c : Chan) (last : ℕ) → IsWf (with_tunnel (tunnel_in s c last))
with_tunnel-IsWf s c last = record {
  places = λ h i e.
      let k = entry h i e in
      record {
        tunnel = tunnel_in s c last;
        there =
            subst (λ n. get_elem? (tunnel_in s c last ∷ []) n ≡ some (tunnel_in s c last)) k.0 refl;
        named = k.1;
      };
  tcp_places = λ p i e. unfold lookup in cc (e);
}

pub config_accepted : validate config_of ≡ ok tt
unfolding validate validate_tcp_entries validate_http_routes validate_tcp_routes
    validate_jump_routes validate_route_base validate_local_port extract_port is_bad_port lookup
    insert delete last_index has_prefix atoi scan_digits scan bytes_beq
config_accepted = refl

pub config_of-IsValid : IsValid config_of
config_of-IsValid = validate_sound config_of config_accepted
