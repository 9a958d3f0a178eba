-- ===== src/Tunnel/Tests.antt =====
-- Tunnels that start, stop and fail.
use lazyfwd.Base.{
  bytes_beq, bytes_eq, ◌==◌, if◌then◌else◌, ◌≡◌, refl, false, none, some, [], ◌∷◌, ◌++◌, codes, ok,
  err,
}
use lazyfwd.Base.Int.{pos}
use lazyfwd.Text.{format_int, format_nat, digits}
use lazyfwd.Config.{K8sRouteConfig}
use lazyfwd.Tunnel.{
  Error, ended, State, idle, starting, running, failed, Chan, nil_chan, open_chan, closed_chan,
  Tunnel, Attempt, ready, timed_out, mark_failed, close_stop, start_begin, start, go_ahead,
  wait_for_ready, start_port_forward, create_port_forwarder, handle_ready, start_decided,
}
use lazyfwd.Tunnel.Await.{seen, await_ready, await_ready-disagrees}
use lazyfwd.Tunnel.Laws.{IsSettled, Started, Start, start-Started, mark_failed-panics}

abbrev route : K8sRouteConfig
route = record {
  context = codes "kind";
  namespace = codes "default";
  service = codes "nginx";
  pod = [];
  port = pos 80;
  scheme = [];
}

abbrev tunnel_in : State → Chan → Tunnel Unit
tunnel_in s c = record {
  hostname = codes "nginx.localhost";
  config = route;
  listen_addr = codes ":8989";
  verbose = false;
  client = tt;
  state = s;
  local_port = 0;
  last_access = 0;
  stop_chan = c;
  last_error = none;
}

-- The starts that come to one port, and to a timeout.
abbrev good : Attempt
good = record {
  discovery = ok (codes "nginx-0", pos 8080);
  transport = none;
  forwarder = λ fw. if fw.pod == codes "nginx-0" then none else some (codes "no such pod");
  outcome = λ fw. ready (ok (40123 ∷ []));
}

abbrev late : Attempt
late = record good { outcome = λ fw. timed_out }

abbrev refuse_join : Start Unit
refuse_join t = some (err (codes "not joined"), t)

idle-IsSettled : IsSettled (tunnel_in idle nil_chan)
idle-IsSettled = record { running_open = λ e. cc (e); not_starting = cc; not_stopping = cc }

start-Started_example : Started (start refuse_join late (tunnel_in idle nil_chan))
start-Started_example = start-Started refuse_join late (tunnel_in idle nil_chan) idle-IsSettled

first_failure :
    mark_failed (codes "lost") (tunnel_in running open_chan)
    ≡ some (record (tunnel_in failed closed_chan) { last_error = some (codes "lost") })
unfolding mark_failed close_stop
first_failure = refl

second_start :
    start_begin (record (tunnel_in failed closed_chan) { last_error = some (codes "lost") })
    ≡ (go_ahead, record (tunnel_in starting closed_chan) { last_error = some (codes "lost") })
unfolding start_begin
second_start = refl

mark_failed-panics_example :
    mark_failed
      (codes "lost again")
      (record (tunnel_in starting closed_chan) { last_error = some (codes "lost") })
    ≡ none
mark_failed-panics_example =
    mark_failed-panics (codes "lost") (codes "lost again") (tunnel_in running open_chan)
      (record (tunnel_in failed closed_chan) { last_error = some (codes "lost") })
      (record (tunnel_in starting closed_chan) { last_error = some (codes "lost") }) refl refl
      first_failure second_start

start-good :
    start refuse_join good (tunnel_in idle nil_chan)
    ≡ some (ok tt, record (tunnel_in running open_chan) { local_port = 40123 })
unfolding start start_begin start_decided start_port_forward create_port_forwarder wait_for_ready
    handle_ready bytes_beq
start-good = refl

-- The forwarder goes to the discovered pod and port.
forwarder_target :
    (create_port_forwarder good (codes "nginx-0", pos 8080) (tunnel_in starting nil_chan)).0
    ≡ ok (record {
      namespace = (tunnel_in starting nil_chan).config.namespace;
      pod = codes "nginx-0";
      ports = codes "0:8080" ∷ [];
    })
unfolding create_port_forwarder bytes_beq format_int format_nat digits
forwarder_target = refl

await_ready-disagrees_example :
    (e : Error) × (u : Tunnel Unit) × (wait_for_ready (ended none) (tunnel_in starting open_chan)
      ≡ some (err e, u))
    × (u.state ≡ failed)
    × (await_ready none ((seen starting none ∷ []) ++ seen u.state u.last_error ∷ []) ≡ some none)
await_ready-disagrees_example =
    await_ready-disagrees (tunnel_in starting open_chan) none (seen starting none ∷ []) []
      (refl, tt)
