-- ===== src/Discovery/Found.antt =====
-- What a successful discovery has found.
use lazyfwd.Base.{
  ◌≡◌, ◌≢◌, ◌⊎◌, refl, subst, inl, inr, List, [], ◌∷◌, Bytes, bytes_eq, is_empty, ok, err,
  Option-cases, Result-cases,
}
use lazyfwd.Base.Int.{ℤ, int_eq}
use lazyfwd.Config.{K8sRouteConfig}
use lazyfwd.Tunnel.{Error}
use lazyfwd.Discovery.{
  Pod, Service, find_ready_pod, resolve_service_port, named_port, found_port, resolve_named_port,
  Api, with_named, with_pod, with_service, discover_target_pod,
}
use lazyfwd.Discovery.Best.{Best, find_ready_pod-Best}
use lazyfwd.Discovery.Ports.{
  LeadsTo, Resolved, resolve_service_port-Resolved, unnamed-LeadsTo, named-LeadsTo,
}

-- What a discovery through a service has found.
pub record Found {Selector : Type 0} (api : Api Selector) (r : K8sRouteConfig) (name : Bytes)
    (port : ℤ) : Type 0 where
  pub svc : Service Selector
  pub pods : List Pod
  pub pod : Pod
  pub service_found : api.get_service r.namespace r.service ≡ ok svc
  pub pods_found : api.list_running r.namespace svc.selector ≡ ok pods
  pub best : Best pods pod
  pub named : name ≡ pod.name
  pub leads : LeadsTo svc.ports r.port pod port

-- A pod that is named by the route, or one found through its service.
abbrev pub IsDiscovered : {Selector : Type 0} → Api Selector → K8sRouteConfig → Bytes → ℤ → Type 0
IsDiscovered api r name port =
    ((r.pod ≢ []) × (name ≡ r.pod) × (port ≡ r.port)) ⊎ ((r.pod ≡ []) × Found api r name port)

module _ {Selector : Type 0} (api : Api Selector) (r : K8sRouteConfig) where
  with_pod-Found :
      (svc : Service Selector) (pods : List Pod) (pod : Pod) (found : ℤ × Bytes) (name : Bytes)
      (port : ℤ)
      → api.get_service r.namespace r.service ≡ ok svc
      → api.list_running r.namespace svc.selector ≡ ok pods
      → Best pods pod
      → Resolved svc.ports r.port found
      → with_pod found (ok pod) ≡ ok (name, port)
      → Found api r name port
  unfolding with_pod resolve_named_port
  with_pod-Found svc pods pod (q, []) name port s l b f h = record {
    svc = svc;
    pods = pods;
    pod = pod;
    service_found = s;
    pods_found = l;
    best = b;
    named = cc (h);
    leads =
        unnamed-LeadsTo svc.ports r.port port pod
          (subst (λ x. Resolved svc.ports r.port (x, [])) (cc (h)) f);
  }
  with_pod-Found svc pods pod (q, c ∷ cs) name port s l b f h =
      elim (Option-cases (named_port pod.containers (c ∷ cs))) [
        | inl e ↦ cc (rw (e, with_named, resolve_named_port, found_port) at h)
        | inr (p, e) ↦
            let h' = rw (e, with_named, resolve_named_port, found_port) at h in
            record {
              svc = svc;
              pods = pods;
              pod = pod;
              service_found = s;
              pods_found = l;
              best = b;
              named = cc (h');
              leads =
                  subst (LeadsTo svc.ports r.port pod) (cc (h'))
                    (named-LeadsTo svc.ports r.port q p c cs pod f e);
            }
      ]

  no_pod :
      {A : Type 0} (found : ℤ × Bytes) (service selector name : Bytes) {port : ℤ}
      → with_pod found (find_ready_pod (ok []) service selector) ≡ ok (name, port)
      → A
  unfolding with_pod find_ready_pod
  no_pod found service selector name h = cc (h)

  no_list :
      {A : Type 0} (found : ℤ × Bytes) (e : Error) (service selector name : Bytes) {port : ℤ}
      → with_pod found (find_ready_pod (err e) service selector) ≡ ok (name, port)
      → A
  unfolding with_pod find_ready_pod
  no_list found e service selector name h = cc (h)

  with_service-Found :
      (name : Bytes) (port : ℤ)
      → with_service api r (api.get_service r.namespace r.service) ≡ ok (name, port)
      → Found api r name port
  unfolding with_service
  with_service-Found name port h = elim (Result-cases (api.get_service r.namespace r.service)) [
    | inr (e, q) ↦ cc (rw (q, with_service) at h)
    | inl (svc, q) ↦
        let h' = rw (q, with_service) at h in
        elim (Result-cases (api.list_running r.namespace svc.selector)) [
          | inr (e, l) ↦
              no_list (resolve_service_port svc.ports r.port) e r.service
                (api.format_selector svc.selector) name (rw l at h')
          | inl (pods, l) ↦ through svc pods q l (rw l at h')
        ]
  ]
    where
      through :
          (svc : Service Selector) (pods : List Pod)
          → api.get_service r.namespace r.service ≡ ok svc
          → api.list_running r.namespace svc.selector ≡ ok pods
          → with_pod
              (resolve_service_port svc.ports r.port)
              (find_ready_pod (ok pods) r.service (api.format_selector svc.selector))
            ≡ ok (name, port)
          → Found api r name port
      through svc [] q l g =
          no_pod (resolve_service_port svc.ports r.port) r.service
            (api.format_selector svc.selector) name g
      through svc (p ∷ ps) q l g =
          let (pod, e, b) = find_ready_pod-Best p ps r.service (api.format_selector svc.selector) in
          with_pod-Found svc (p ∷ ps) pod (resolve_service_port svc.ports r.port) name port q l b
            (resolve_service_port-Resolved svc.ports r.port) (rw e at g)

  -- A discovery that succeeds has found the pod and the port that the route means: the pod that the
  -- route names with the route's port, or else the best of the running pods of the service, with the
  -- container's port to which the service's port leads.
  pub discover_target_pod-IsDiscovered :
      (name : Bytes) (port : ℤ)
      → discover_target_pod api r ≡ ok (name, port)
      → IsDiscovered api r name port
  unfolding discover_target_pod
  discover_target_pod-IsDiscovered name port h = from r.pod refl
    where
      from : (s : Bytes) → r.pod ≡ s → IsDiscovered api r name port
      from [] e = inr (e, with_service-Found name port (rw (e, is_empty) at h))
      from (c ∷ s) e = let h' = rw (e, is_empty) at h in inl (cc (e), cc (e, h'), cc (h'))
