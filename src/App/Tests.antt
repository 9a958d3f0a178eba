-- ===== src/App/Tests.antt =====
-- A program with one TCP port, from a watcher's configuration.
use lazyfwd.Base.{
  ℕ, zero, suc, ◌≡◌, ◌≢◌, refl, Option, true, false, some, none, [], arith, Bytes, codes, get_elem?,
  ok, err,
}
use lazyfwd.Base.Int.{ℤ}
use lazyfwd.Text.{join}
use lazyfwd.Tunnel.{Error, Tunnel, running, open_chan}
use lazyfwd.Config.Load.{Outside}
use lazyfwd.ExecPath.{Process, linux}
use lazyfwd.Manager.Sample.{config_of, running_one}
use lazyfwd.Manager.Cleanup.{CanStop}
use lazyfwd.Manager.Shutdown.{IsMapped}
use lazyfwd.App.{App, shutdown_app}
use lazyfwd.App.Ready.{IsShut, Unbound, shutdown_app-stops}

abbrev outside : Outside
outside = record {
  file = err (codes "no such file");
  unmarshal = λ text c. ok c;
  kubeconfig_env = [];
  home = codes "/h";
  join_path = join (codes "/");
  trim_space = λ s. s;
}

abbrev process : Process
process = record {
  system = linux;
  home = codes "/h";
  path = codes "/bin";
  exists = λ d. false;
  join_path = join (codes "/");
}

abbrev listen : ℤ → Option Error
listen port = none

abbrev app : App Bytes
app = record {
  cfg = config_of;
  path = codes "/bin";
  manager = running_one;
  http_server = record {
    done = open_chan;
    listener = some (record { done = open_chan; is_open = true });
    server = some true;
  };
  tcp_server = none;
}

app-CanStop : CanStop app.manager.store
app-CanStop zero t e r = ground arith
app-CanStop (suc i) t e r = cc (e)

shutdown_app-stops_example :
    (left : App Bytes) × (shutdown_app app ≡ some left)
    × IsShut left.http_server
    × Unbound left.tcp_server
    × (left.manager.tunnels ≡ [])
    × (left.manager.tcp_tunnels ≡ [])
    × ((i : ℕ) (t : Tunnel Bytes)
        → IsMapped app.manager i
        → get_elem? left.manager.store i ≡ some t
        → t.state ≢ running)
shutdown_app-stops_example =
    shutdown_app-stops app (record { open_done = refl; open_mux = refl }) tt app-CanStop
