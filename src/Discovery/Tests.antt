-- ===== src/Discovery/Tests.antt =====
-- A service whose port has a name in the pod.
use lazyfwd.Base.{◌≡◌, refl, List, [], ◌∷◌, Bytes, bytes_beq, codes, ok}
use lazyfwd.Base.Int.{pos}
use lazyfwd.Config.{K8sRouteConfig}
use lazyfwd.Discovery.{
  Pod, Api, has_ready, first_ready, find_ready_pod, resolve_service_port, named_in, named_port,
  resolve_named_port, discover_target_pod,
}
use lazyfwd.Discovery.Best.{Best, find_ready_pod-Best}
use lazyfwd.Discovery.Found.{IsDiscovered, discover_target_pod-IsDiscovered}

abbrev pod_of : Bytes → Bytes → Pod
pod_of name status = record {
  name = name;
  phase = codes "Running";
  conditions = record { kind = codes "Ready"; status = status } ∷ [];
  containers = (record { name = codes "web"; container_port = pos 8080 } ∷ []) ∷ [];
}

abbrev pods : List Pod
pods = pod_of (codes "nginx-0") (codes "False") ∷ pod_of (codes "nginx-1") (codes "True") ∷ []

abbrev api : Api Unit
api = record {
  get_service = λ namespace name. ok (record {
    selector = tt;
    ports =
        record { port = pos 80; target_port = record { int_val = pos 0; str_val = codes "web" } }
        ∷ [];
  });
  list_running = λ namespace selector. ok pods;
  format_selector = λ selector. codes "app=nginx";
}

abbrev route : K8sRouteConfig
route = record {
  context = codes "kind";
  namespace = codes "default";
  service = codes "nginx";
  pod = [];
  port = pos 80;
  scheme = [];
}

discovered : discover_target_pod api route ≡ ok (codes "nginx-1", pos 8080)
unfolding discover_target_pod find_ready_pod first_ready has_ready bytes_beq resolve_service_port
    resolve_named_port named_port named_in
discovered = refl

discover_target_pod-IsDiscovered_example : IsDiscovered api route (codes "nginx-1") (pos 8080)
discover_target_pod-IsDiscovered_example =
    discover_target_pod-IsDiscovered api route (codes "nginx-1") (pos 8080) discovered

find_ready_pod-Best_example :
    (best : Pod) × (find_ready_pod
        (ok (pod_of (codes "nginx-0") (codes "False") ∷ []))
        (codes "nginx")
        []
      ≡ ok best)
    × Best (pod_of (codes "nginx-0") (codes "False") ∷ []) best
find_ready_pod-Best_example =
    find_ready_pod-Best (pod_of (codes "nginx-0") (codes "False")) [] (codes "nginx") []
