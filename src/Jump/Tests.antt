-- ===== src/Jump/Tests.antt =====
-- A jump pod that is made, and used.
use lazyfwd.Base.{
  ◌*◌, ◌<◌, true, false, some, none, [], arith, some_injective, subst, codes, ok, err,
}
use lazyfwd.Base.Int.{pos}
use lazyfwd.Config.{CreateConfig, JumpRouteConfig}
use lazyfwd.PodWait.{ApiError, poll_interval}
use lazyfwd.Jump.{wait_timeout, Cluster, Streaming, handle_jump}
use lazyfwd.Jump.Spec.{IsFair, IsHandled}
use lazyfwd.Jump.Laws.{handle_jump-IsHandled}

abbrev create : CreateConfig
create = record { image = codes "alpine/socat"; command = []; timeout = pos 1500000000 }

abbrev route : JumpRouteConfig
route = record {
  context = codes "kind";
  namespace = codes "default";
  via = record { pod = codes "bastion"; service = []; container = []; create = some create };
  target = record { host = codes "db.internal"; port = pos 5432 };
  method = [];
}

abbrev missing : ApiError
missing = record { text = codes "not found"; not_found = true; already_exists = false }

-- The pod is not there, and is made; the API server does not answer the polls.
abbrev cluster : Cluster Unit
cluster = record {
  get_pod = λ n p. some missing;
  create_pod = λ spec. none;
  start = 0;
  polls = λ k. record { time = k * poll_interval; got = err missing; cancelled = none };
  get_service = λ n s. err (codes "no service");
  list_pods = λ n s. ok [];
  selector_text = λ s. [];
}

cluster-IsFair : IsFair 2 cluster route
cluster-IsFair = record {
  started = omega arith;
  paced = λ k. omega arith;
  enough = λ c q.
      subst (λ (d : CreateConfig). wait_timeout d.timeout < 2 * poll_interval) (some_injective q)
        (omega arith);
}

abbrev streaming : Streaming
streaming = record { executor = none; streamed = none }

handle_jump-IsHandled_example :
    IsHandled cluster route (handle_jump (λ t. t) true 3 cluster streaming route)
handle_jump-IsHandled_example =
    handle_jump-IsHandled (λ t. t) true 2 cluster streaming route cluster-IsFair
