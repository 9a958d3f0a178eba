-- ===== src/Jump.antt =====
-- internal/tcpserver/jump_handler.go: the pod through which a jump route goes, which is made if the
-- route says so, and the command that runs in it. The API server and the stream over exec are an
-- argument.
pub mod Spec
pub mod Laws
mod Tests
use lazyfwd.Base.{
  ℕ, zero, suc, ◌*◌, Bool, true, false, not, Option, none, some, List, [], ◌∷◌, ◌++◌, Bytes,
  bytes_eq, codes, is_empty, if◌then◌else◌, Result, ok, err,
}
use lazyfwd.Base.Int.{ℤ, pos, negsuc}
use lazyfwd.Config.{CreateConfig, ViaConfig, JumpRouteConfig}
use lazyfwd.Tunnel.{Error}
use lazyfwd.Discovery.{Pod, Service, find_ready_pod}
use lazyfwd.PodWait.{ApiError, Poll, poll_interval, Waited, wait_for_pod_ready}
use lazyfwd.JumpCommand.{CommandError, invalid_target_host, build_forward_command}

-- The fields of `corev1.Pod` that the code sets; quantities are texts.
pub record PodSpec : Type 0 where
  pub name : Bytes
  pub namespace : Bytes
  pub labels : List (Bytes × Bytes)
  pub container : Bytes
  pub image : Bytes
  pub command : List Bytes
  pub requests : List (Bytes × Bytes)
  pub limits : List (Bytes × Bytes)
  pub restart_policy : Bytes

abbrev pub pod_command : List Bytes → List Bytes
pod_command [] = codes "sleep" ∷ codes "infinity" ∷ []
pod_command (c ∷ cs) = c ∷ cs

-- `buildJumpPodSpec`, for a route with `via.create`
unfoldable pub build_jump_pod_spec : JumpRouteConfig → CreateConfig → PodSpec
build_jump_pod_spec r c = record {
  name = r.via.pod;
  namespace = r.namespace;
  labels =
      (codes "app.kubernetes.io/name", codes "autotunnel-jump")
      ∷ (codes "app.kubernetes.io/managed-by", codes "autotunnel")
      ∷ [];
  container = codes "jump";
  image = c.image;
  command = pod_command c.command;
  requests = (codes "cpu", codes "10m") ∷ (codes "memory", codes "16Mi") ∷ [];
  limits = (codes "cpu", codes "100m") ∷ (codes "memory", codes "64Mi") ∷ [];
  restart_policy = codes "Always";
}

-- The answers of the API server: to the get and the create of a pod, the time when the wait begins
-- and its polls, the get of a service by its name, and the pods of a selector, whose text is beside.
pub record Cluster (Selector : Type 0) : Type 0 where
  pub get_pod : Bytes → Bytes → Option ApiError
  pub create_pod : PodSpec → Option ApiError
  pub start : ℕ
  pub polls : ℕ → Poll
  pub get_service : Bytes → Bytes → Result Error (Service Selector)
  pub list_pods : Bytes → Selector → Result Error (List Pod)
  pub selector_text : Selector → Bytes

-- Sixty seconds, unless the route has a timeout.
abbrev pub wait_timeout : ℤ → ℕ
wait_timeout (pos zero) = 60 * poll_interval
wait_timeout (pos (suc n)) = suc n
wait_timeout (negsuc n) = 60 * poll_interval

-- What was asked to be created, and the result.
abbrev pub Ensuring : Type 0
Ensuring = Option (Result Error (Unit {0}) × List PodSpec)

after_wait : PodSpec → Waited → Ensuring
after_wait spec none = none
after_wait spec (some (ok u)) = some (ok tt, spec ∷ [])
after_wait spec (some (err e)) = some (err (codes "jump pod not ready: " ++ e), spec ∷ [])

after_create : PodSpec → Waited → Option ApiError → Ensuring
unfolding after_wait
after_create spec wait none = after_wait spec wait
after_create spec wait (some e) =
    if e.already_exists
    then some (ok tt, spec ∷ [])
    else some (err (codes "failed to create jump pod: " ++ e.text), spec ∷ [])

after_get : PodSpec → Waited → Option ApiError → Option ApiError → Ensuring
unfolding after_create
after_get spec wait created none = some (ok tt, [])
after_get spec wait created (some e) =
    if not e.not_found
    then some (err (codes "failed to check if pod exists: " ++ e.text), [])
    else after_create spec wait created

created_from : CreateConfig → PodSpec → ℕ → ℕ → (ℕ → Poll) → Waited
created_from c spec fuel start polls =
    wait_for_pod_ready fuel spec.name start (wait_timeout c.timeout) polls

named_pod : Bytes → Bytes → Ensuring → Option (Result Error (Bytes × Bytes) × List PodSpec)
named_pod pod container none = none
named_pod pod container (some (ok u, specs)) = some (ok (pod, container), specs)
named_pod pod container (some (err e, specs)) = some (err e, specs)

found_pod : Bytes → Result Error Pod → Result Error (Bytes × Bytes)
found_pod container (err e) = err e
found_pod container (ok pod) = ok (pod.name, container)

module _ {Selector : Type 0} where
  -- `ensureJumpPodExists`; the wait for a new pod runs on fuel.
  unfoldable pub ensure_jump_pod_exists : ℕ → Cluster Selector → JumpRouteConfig → Ensuring
  unfolding after_get created_from
  ensure_jump_pod_exists fuel cluster r = elim r.via.create [
    | none ↦ some (ok tt, [])
    | some c ↦
        let spec = build_jump_pod_spec r c in
        after_get spec (created_from c spec fuel cluster.start cluster.polls)
          (cluster.create_pod spec) (cluster.get_pod r.namespace r.via.pod)
  ]

  service_pod :
      Cluster Selector
      → JumpRouteConfig
      → Result Error (Service Selector)
      → Result Error (Bytes × Bytes)
  unfolding found_pod
  service_pod cluster r (err e) =
      err (codes "failed to get service " ++ (r.via.service ++ (codes ": " ++ e)))
  service_pod cluster r (ok s) = found_pod r.via.container (
      find_ready_pod (cluster.list_pods r.namespace s.selector) r.via.service
        (cluster.selector_text s.selector))

  -- `discoverJumpPod`: the pod and the container.
  unfoldable pub discover_jump_pod :
      ℕ → Cluster Selector → JumpRouteConfig → Option (Result Error (Bytes × Bytes) × List PodSpec)
  unfolding named_pod service_pod
  discover_jump_pod fuel cluster r =
      if not (is_empty r.via.pod)
      then named_pod r.via.pod r.via.container (ensure_jump_pod_exists fuel cluster r)
      else some (service_pod cluster r (cluster.get_service r.namespace r.via.service), [])

-- One run of a command in a pod; without a container the API server takes the first one.
pub record Exec : Type 0 where
  pub namespace : Bytes
  pub pod : Bytes
  pub container : Option Bytes
  pub command : List Bytes

-- How the stream answers: whether there is an executor, and the error of the stream with whether the
-- context has ended.
pub record Streaming : Type 0 where
  pub executor : Option Error
  pub streamed : Option (Error × Bool)

abbrev pub container_of : Bytes → Option Bytes
container_of [] = none
container_of (c ∷ s) = some (c ∷ s)

-- `fmt.Errorf("invalid target host %q: ...")`: `quote` is the quoting of `%q`.
abbrev command_text : (Bytes → Bytes) → CommandError → Error
command_text quote (invalid_target_host host) =
    codes "invalid target host " ++ (quote host ++ codes ": must be valid hostname or IP")

abbrev stream_end : Option (Error × Bool) → Result Error (Unit {0})
stream_end none = ok tt
stream_end (some (e, ended)) = if ended then ok tt else err (codes "exec stream failed: " ++ e)

-- How a connection is handled: the error, and the command that ran, if one did.
abbrev pub Handled : Type 0
Handled = Result Error (Unit {0}) × Option Exec

run_exec : Streaming → Exec → Handled
run_exec s e = elim s.executor [
  | some x ↦ (err (codes "failed to create executor: " ++ x), none)
  | none ↦ (stream_end s.streamed, some e)
]

with_command :
    (Bytes → Bytes)
    → Streaming
    → JumpRouteConfig
    → Bytes × Bytes
    → Result CommandError Bytes
    → Handled
unfolding run_exec
with_command quote s r (pod, container) (err e) =
    (err (codes "failed to build forward command: " ++ command_text quote e), none)
with_command quote s r (pod, container) (ok cmd) = run_exec s (record {
  namespace = r.namespace;
  pod = pod;
  container = container_of container;
  command = codes "sh" ∷ codes "-c" ∷ cmd ∷ [];
})

with_pod :
    (Bytes → Bytes)
    → Streaming
    → JumpRouteConfig
    → Option (Result Error (Bytes × Bytes) × List PodSpec)
    → Option (Handled × List PodSpec)
unfolding with_command
with_pod quote s r none = none
with_pod quote s r (some (err e, specs)) =
    some ((err (codes "failed to discover jump pod: " ++ e), none), specs)
with_pod quote s r (some (ok p, specs)) =
    some (with_command quote s r p (build_forward_command r.target), specs)

-- `JumpHandler.HandleConnection`, for a client whose REST configuration is there or not.
unfoldable pub handle_jump :
    {Selector : Type 0}
    → (Bytes → Bytes)
    → Bool
    → ℕ
    → Cluster Selector
    → Streaming
    → JumpRouteConfig
    → Option (Handled × List PodSpec)
unfolding with_pod
handle_jump quote rest_config fuel cluster s r =
    if not rest_config
    then some ((err (codes "restConfig is nil, cannot create SPDY executor"), none), [])
    else with_pod quote s r (discover_jump_pod fuel cluster r)
