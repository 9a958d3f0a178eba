-- ===== src/TcpServer/Tests.antt =====
-- A server of two ports, the second of which is taken.
use lazyfwd.Base.{
  ℕ, ◌≡◌, refl, some, none, true, false, Option, List, [], ◌∷◌, ◌++◌, arith, codes, ok, err, ◌==◌,
  if◌then◌else◌,
}
use lazyfwd.Base.Int.{ℤ, pos, int_eq}
use lazyfwd.GoMap.{keys, insert, delete}
use lazyfwd.Text.{format_int, format_nat, digits}
use lazyfwd.Config.{TcpK8sConfig, TcpRouteConfig, JumpRouteConfig}
use lazyfwd.Config.Validate.Spec.{Distinct}
use lazyfwd.Tunnel.{Error}
use lazyfwd.TcpServer.Accept.{Accepted, to_jump, accept_loop, accept_loop-ends}
use lazyfwd.TcpServer.{
  jump, new_server, start_listener, unbind, close_all, shutdown, start_all, start,
}
use lazyfwd.TcpServer.Listeners.{stopped, Listens, start-Listens}

abbrev to_database : TcpRouteConfig
to_database = record {
  context = codes "kind";
  namespace = codes "default";
  service = codes "pg";
  pod = [];
  port = pos 5432;
}

abbrev through_bastion : JumpRouteConfig
through_bastion = record {
  context = codes "kind";
  namespace = codes "default";
  via = record { pod = codes "bastion"; service = []; container = []; create = none };
  target = record { host = codes "db.internal"; port = pos 5432 };
  method = [];
}

abbrev two_ports : TcpK8sConfig
two_ports = record {
  kubeconfig = [];
  resolved_kubeconfigs = [];
  routes = (pos 5433, to_database) ∷ [];
  jump = (pos 5434, through_bastion) ∷ [];
}

two_ports-Distinct : Distinct (keys two_ports.routes ++ keys two_ports.jump)
two_ports-Distinct = (((λ e. ground arith), tt), (tt, tt))

abbrev taken : ℤ → Option Error
taken p = if p == pos 5434 then some (codes "in use") else none

start-Listens_example : Listens two_ports (start taken (new_server two_ports))
start-Listens_example = start-Listens taken two_ports two_ports-Distinct

nothing_bound :
    start taken (new_server two_ports)
    ≡ some (err (codes "failed to listen on TCP port 5434: in use"), stopped (new_server two_ports))
unfolding start new_server start_all start_listener shutdown close_all unbind insert delete
    format_int format_nat digits
nothing_bound = refl

-- An error before the stop, a connection, and the error after it.
abbrev answers : List (Accepted ℕ)
answers =
    record { answer = err (codes "too many open files"); stopped = false; cancelled = false }
    ∷ record { answer = ok 7; stopped = false; cancelled = false }
    ∷ []

abbrev last_answer : Accepted ℕ
last_answer = record { answer = err (codes "closed"); stopped = true; cancelled = true }

accept_loop-ends_example : accept_loop jump (answers ++ last_answer ∷ []) ≡ (to_jump 7 ∷ [], true)
accept_loop-ends_example = accept_loop-ends jump answers last_answer [] (refl, (refl, tt)) refl
