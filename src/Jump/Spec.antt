-- ===== src/Jump/Spec.antt =====
-- What a jump connection may make and run: descriptions of a pod, of a run, and of the end.
use lazyfwd.Base.{
  ℕ, suc, ◌+◌, ◌*◌, ◌≤◌, ◌<◌, ◌≡◌, ◌≢◌, Option, none, some, List, [], ◌∷◌, Bytes, codes, All, ok,
  err,
}
use lazyfwd.Config.{CreateConfig, JumpRouteConfig}
use lazyfwd.Tunnel.{Error}
use lazyfwd.PodWait.{poll_interval}
use lazyfwd.JumpCommand.{IsCommand}
use lazyfwd.Discovery.{Pod, Service}
use lazyfwd.Discovery.Best.{Best}
use lazyfwd.Jump.{PodSpec, Cluster, wait_timeout, Exec, Handled}

-- A pod that the route itself describes: of the name and in the namespace of the route, with the image
-- it asks for, and running the command it asks for, or asleep where it asks for none.
pub record IsOwn (r : JumpRouteConfig) (spec : PodSpec) : Type 0 where
  pub asked : CreateConfig
  pub creates : r.via.create ≡ some asked
  pub named : spec.name ≡ r.via.pod
  pub placed : spec.namespace ≡ r.namespace
  pub imaged : spec.image ≡ asked.image
  pub runs : asked.command ≢ [] → spec.command ≡ asked.command
  pub sleeps : asked.command ≡ [] → spec.command ≡ codes "sleep" ∷ codes "infinity" ∷ []

-- The pod of the route's service: of the pods that are listed for the service's selector the first that
-- is ready, or the first where none is.
pub record OfService {Selector : Type 0} (cluster : Cluster Selector) (r : JumpRouteConfig)
    (pod : Bytes) : Type 0 where
  pub service : Service Selector
  pub got : cluster.get_service r.namespace r.via.service ≡ ok service
  pub pods : List Pod
  pub listed : cluster.list_pods r.namespace service.selector ≡ ok pods
  pub best : Pod
  pub chosen : Best pods best
  pub of_best : pod ≡ best.name

-- A run in the namespace of the route, in its pod and its container where the route names them, and
-- else in the pod of its service, of a shell with the one command of the route's target.
pub record IsRun {Selector : Type 0} (cluster : Cluster Selector) (r : JumpRouteConfig) (e : Exec)
    : Type 0 where
  pub in_namespace : e.namespace ≡ r.namespace
  pub in_pod : r.via.pod ≢ [] → e.pod ≡ r.via.pod
  pub in_service : r.via.pod ≡ [] → OfService cluster r e.pod
  pub in_container : r.via.container ≢ [] → e.container ≡ some r.via.container
  pub in_first : r.via.container ≡ [] → e.container ≡ none
  pub text : Bytes
  pub by_shell : e.command ≡ codes "sh" ∷ codes "-c" ∷ text ∷ []
  pub plain : IsCommand r.target text

-- A connection is handled with an end, makes no pods but those of its route, and runs nothing else
-- than the command of its route; without a run there is an error.
abbrev pub IsHandled :
    {Selector : Type 0}
    → Cluster Selector
    → JumpRouteConfig
    → Option (Handled × List PodSpec)
    → Type 0
IsHandled cluster r none = ⊥
IsHandled cluster r (some ((res, none), specs)) =
    All (IsOwn r) specs × ((e : Error) × (res ≡ err e))
IsHandled cluster r (some ((res, some e), specs)) = All (IsOwn r) specs × IsRun cluster r e

-- Rounds of polls at a distance of at least an interval, and a number of them that exceeds the timeout
-- of the route.
pub record IsFair {Selector : Type 0} (n : ℕ) (cluster : Cluster Selector) (r : JumpRouteConfig)
    : Type 0 where
  pub started : cluster.start ≤ (cluster.polls 0).time
  pub paced : (k : ℕ) → (cluster.polls k).time + poll_interval ≤ (cluster.polls (suc k)).time
  pub enough :
      (c : CreateConfig) → r.via.create ≡ some c → wait_timeout c.timeout < n * poll_interval
