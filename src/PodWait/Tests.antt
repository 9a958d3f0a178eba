-- ===== src/PodWait/Tests.antt =====
-- A pod that is ready in the second round, and one that never is.
use lazyfwd.Base.{
  ℕ, zero, suc, ◌+◌, ◌*◌, ◌≡◌, refl, some, none, false, [], ◌∷◌, arith, bytes_beq, codes, Result,
  ok, err,
}
use lazyfwd.Tunnel.{Error}
use lazyfwd.Discovery.{Pod, has_ready}
use lazyfwd.PodWait.{ApiError, Poll, poll_interval, wait_from, wait_for_pod_ready}
use lazyfwd.PodWait.Ends.{WasReady, wait_for_pod_ready-ends}

abbrev unavailable : ApiError
unavailable = record { text = codes "unavailable"; not_found = false; already_exists = false }

-- Rounds at an interval's distance, in which the API server fails.
abbrev silent : ℕ → Poll
silent k = record { time = k * poll_interval; got = err unavailable; cancelled = none }

abbrev ready_pod : Pod
ready_pod = record {
  name = codes "jump";
  phase = codes "Running";
  conditions = record { kind = codes "Ready"; status = codes "True" } ∷ [];
  containers = [];
}

abbrev answer : ℕ → Result ApiError Pod
answer zero = err unavailable
answer (suc k) = ok ready_pod

abbrev soon : ℕ → Poll
soon k = record { time = k * poll_interval; got = answer k; cancelled = none }

ready_soon : wait_for_pod_ready 3 (codes "jump") 0 1500000000 soon ≡ some (ok tt)
unfolding wait_for_pod_ready wait_from has_ready bytes_beq
ready_soon = refl

wait_for_pod_ready-ends_example :
    (r : Result Error (Unit {0})) × (wait_for_pod_ready 3 (codes "jump") 0 1500000000 silent
      ≡ some r)
    × (r ≡ ok tt → WasReady (0 + 1500000000) silent 0)
wait_for_pod_ready-ends_example =
    wait_for_pod_ready-ends 2 (codes "jump") 0 1500000000 silent (omega arith) (λ k. omega arith)
      (omega arith)
