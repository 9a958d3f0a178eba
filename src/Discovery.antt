-- ===== src/Discovery.antt =====
-- Which pod and which of its ports a route leads to: internal/k8sutil/pod.go, service.go and
-- `discoverTargetPod` of internal/tunnel/port_forward.go. The records hold the fields of the
-- Kubernetes API that the code reads; the answers of the API server are arguments.
pub mod Best
pub mod Ports
pub mod Found
mod Tests
use lazyfwd.Base.{
  ℕ, zero, suc, ◌+◌, Bool, true, false, ◌&&◌, ◌||◌, Option, none, some, List, [], ◌∷◌, ◌++◌, Bytes,
  bytes_eq, bytes_beq, codes, is_empty, ltb, if◌then◌else◌, Result, ok, err, ◌==◌,
}
use lazyfwd.Base.Int.{ℤ, pos, int_eq, int_beq}
use lazyfwd.Config.{K8sRouteConfig}
use lazyfwd.Tunnel.{Error}

pub record Condition : Type 0 where
  pub kind : Bytes
  pub status : Bytes

pub record ContainerPort : Type 0 where
  pub name : Bytes
  pub container_port : ℤ

pub record Pod : Type 0 where
  pub name : Bytes
  pub phase : Bytes
  pub conditions : List Condition
  -- for each container its ports
  pub containers : List (List ContainerPort)

-- `IntOrString`: a number, with a name beside it.
pub record TargetPort : Type 0 where
  pub int_val : ℤ
  pub str_val : Bytes

pub record ServicePort : Type 0 where
  pub port : ℤ
  pub target_port : TargetPort

pub record Service (Selector : Type 0) : Type 0 where
  pub selector : Selector
  pub ports : List ServicePort

-- `cond.Type == corev1.PodReady && cond.Status == corev1.ConditionTrue`, over all conditions.
unfoldable pub has_ready : List Condition → Bool
has_ready [] = false
has_ready (c ∷ cs) =
    let rest = has_ready cs in
    if (c.kind == codes "Ready") && (c.status == codes "True") then true else rest

abbrev pub is_ready : Pod → Bool
is_ready p = has_ready p.conditions

-- The loop for the first ready pod.
unfoldable pub first_ready : List Pod → Option Pod
first_ready [] = none
first_ready (p ∷ ps) = let rest = first_ready ps in if is_ready p then some p else rest

-- The message where no pod is running.
no_pods : Bytes → Bytes → Error
no_pods service selector =
    if is_empty service
    then codes "no running pods found matching selector " ++ selector
    else codes "no running pods found for service " ++ service

pick_pod : Option Pod → Pod → Pod
pick_pod (some p) first = p
pick_pod none first = first

-- `FindReadyPod`: what the API answers to the list of running pods that match, the service's name
-- and the selector as text.
unfoldable pub find_ready_pod : Result Error (List Pod) → Bytes → Bytes → Result Error Pod
unfolding no_pods pick_pod
find_ready_pod (err e) service selector = err (codes "failed to list pods: " ++ e)
find_ready_pod (ok []) service selector = err (no_pods service selector)
find_ready_pod (ok (p ∷ ps)) service selector = ok (pick_pod (first_ready (p ∷ ps)) p)

-- `ResolveServicePort`: the port, and a name where it has still to be looked up.
unfoldable pub resolve_service_port : List ServicePort → ℤ → ℤ × Bytes
resolve_service_port [] port = (port, [])
resolve_service_port (p ∷ ps) port =
    let rest = resolve_service_port ps port in
    if p.port == port
    then (if p.target_port.int_val == pos 0
        then (port, p.target_port.str_val)
        else (p.target_port.int_val, []))
    else rest

-- The first port of a name in one container, and in all of them.
unfoldable pub named_in : List ContainerPort → Bytes → Option ℤ
named_in [] name = none
named_in (p ∷ ps) name =
    let rest = named_in ps name in if p.name == name then some p.container_port else rest

unfoldable pub named_port : List (List ContainerPort) → Bytes → Option ℤ
named_port [] name = none
named_port (c ∷ cs) name =
    let rest = named_port cs name in elim (named_in c name) [ none ↦ rest | some p ↦ some p ]

-- The name of a container's port holds letters, digits and dashes, to which `%q` adds the quotes.
found_port : Option ℤ → Bytes → Bytes → Result Error ℤ
found_port (some p) name pod = ok p
found_port none name pod =
    err (codes "could not resolve named port \"" ++ (name ++ (codes "\" in pod " ++ pod)))

-- `ResolveNamedPort`
unfoldable pub resolve_named_port : Pod → Bytes → Result Error ℤ
unfolding found_port
resolve_named_port pod name = found_port (named_port pod.containers name) name pod.name

-- What the API server answers.
pub record Api (Selector : Type 0) : Type 0 where
  pub get_service : Bytes → Bytes → Result Error (Service Selector)
  pub list_running : Bytes → Selector → Result Error (List Pod)
  pub format_selector : Selector → Bytes

-- An error of the discovery: the one that `setFailed` records and the one that is returned.
abbrev pub Discovered : Type 0
Discovered = Result (Error × Error) (Bytes × ℤ)

abbrev both : Error → Discovered
both e = err (e, e)

with_named : Bytes → Result Error ℤ → Discovered
with_named pod (err e) = both e
with_named pod (ok port) = ok (pod, port)

with_pod : ℤ × Bytes → Result Error Pod → Discovered
unfolding with_named
with_pod (port, name) (err e) = both e
with_pod (port, []) (ok pod) = ok (pod.name, port)
with_pod (port, c ∷ name) (ok pod) = with_named pod.name (resolve_named_port pod (c ∷ name))

with_service :
    {Selector : Type 0}
    → Api Selector
    → K8sRouteConfig
    → Result Error (Service Selector)
    → Discovered
unfolding with_pod
with_service api r (err e) = err (e, codes "failed to get service: " ++ e)
with_service api r (ok svc) = with_pod (resolve_service_port svc.ports r.port) (
    find_ready_pod (api.list_running r.namespace svc.selector) r.service
      (api.format_selector svc.selector))

-- `discoverTargetPod`: a pod that the route names is taken as it is.
unfoldable pub discover_target_pod :
    {Selector : Type 0} → Api Selector → K8sRouteConfig → Discovered
unfolding with_service
discover_target_pod api r =
    if is_empty r.pod
    then with_service api r (api.get_service r.namespace r.service)
    else ok (r.pod, r.port)
