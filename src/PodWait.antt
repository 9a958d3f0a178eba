-- ===== src/PodWait.antt =====
-- internal/k8sutil/pod.go, `WaitForPodReady`: the loop that polls a pod. The answers of the API
-- server, the clock and the context are a sequence of polls; times are in nanoseconds.
pub mod Ends
mod Tests
use lazyfwd.Base.{
  ℕ, zero, suc, ◌+◌, Bool, true, false, Option, none, some, List, [], ◌∷◌, ◌++◌, Bytes, bytes_eq,
  codes, ltb, if◌then◌else◌, Result, ok, err, ◌==◌,
}
use lazyfwd.Tunnel.{Error}
use lazyfwd.Discovery.{Pod, has_ready}

-- An error of the API server, with what `IsNotFound` and `IsAlreadyExists` say of it.
pub record ApiError : Type 0 where
  pub text : Error
  pub not_found : Bool
  pub already_exists : Bool

-- One round: the time when it begins, the answer, and the error of the context if it has ended when
-- the round does.
pub record Poll : Type 0 where
  pub time : ℕ
  pub got : Result ApiError Pod
  pub cancelled : Option Error

abbrev pub poll_interval : ℕ
poll_interval = 1000000000

abbrev pub Waited : Type 0
Waited = Option (Result Error (Unit {0}))

-- The `select` at the end of a round.
go_on : Option Error → Waited → Waited
go_on (some e) rest = some (err e)
go_on none rest = rest

pub timed_out_text : Bytes → Error
timed_out_text name = codes "timeout waiting for pod " ++ (name ++ codes " to be ready")

after_get : Bytes → Option Error → Result ApiError Pod → Waited → Waited
unfolding go_on
after_get name cancelled (err e) rest =
    if e.not_found
    then some (err (codes "pod " ++ (name ++ codes " was deleted")))
    else go_on cancelled rest
after_get name cancelled (ok pod) rest =
    if has_ready pod.conditions
    then some (ok tt)
    else if pod.phase == codes "Failed"
    then some (err (codes "pod " ++ (name ++ codes " failed")))
    else go_on cancelled rest

-- The loop from round `k` on, for at most so many rounds.
unfoldable pub wait_from : ℕ → Bytes → ℕ → (ℕ → Poll) → ℕ → Waited
unfolding after_get
wait_from zero name deadline polls k = none
wait_from (suc n) name deadline polls k =
    let rest = wait_from n name deadline polls (suc k) in
    if ltb deadline (polls k).time
    then some (err (timed_out_text name))
    else after_get name (polls k).cancelled (polls k).got rest

-- `WaitForPodReady`, called at a time.
unfoldable pub wait_for_pod_ready : ℕ → Bytes → ℕ → ℕ → (ℕ → Poll) → Waited
wait_for_pod_ready fuel name start timeout polls = wait_from fuel name (start + timeout) polls 0
