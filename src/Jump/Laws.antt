-- ===== src/Jump/Laws.antt =====
-- What a jump connection runs and makes in the cluster.
use lazyfwd.Base.{
  ℕ, suc, ◌≡◌, ◌≢◌, refl, Bool, true, false, not, Option, none, some, List, [], ◌∷◌, Bytes, All,
  is_empty, Result, ok, err, Bool-cases, Option-cases, inl, inr,
}
use lazyfwd.Config.{CreateConfig, JumpRouteConfig}
use lazyfwd.Tunnel.{Error}
use lazyfwd.PodWait.{ApiError, Waited}
use lazyfwd.PodWait.Ends.{HasEnded, wait_for_pod_ready-ends}
use lazyfwd.JumpCommand.{CommandError, build_forward_command, build_forward_command-IsCommand}
use lazyfwd.Discovery.{Pod, Service, find_ready_pod}
use lazyfwd.Discovery.Best.{find_ready_pod-Best}
use lazyfwd.Jump.{
  PodSpec, pod_command, build_jump_pod_spec, container_of, service_pod, found_pod, Cluster,
  wait_timeout, Ensuring, after_wait, after_create, after_get, created_from, ensure_jump_pod_exists,
  named_pod, discover_jump_pod, Exec, Streaming, run_exec, with_command, with_pod, handle_jump,
}
use lazyfwd.Jump.Spec.{IsOwn, OfService, IsRun, IsHandled, IsFair}

build_jump_pod_spec-IsOwn :
    (r : JumpRouteConfig) (c : CreateConfig)
    → r.via.create ≡ some c
    → IsOwn r (build_jump_pod_spec r c)
unfolding build_jump_pod_spec
build_jump_pod_spec-IsOwn r c q = record {
  asked = c;
  creates = q;
  named = refl;
  placed = refl;
  imaged = refl;
  runs = kept c.command;
  sleeps = λ e. rw e refl;
}
  where
    kept : (command : List Bytes) → command ≢ [] → pod_command command ≡ command
    kept [] given = absurd (given refl)
    kept (c ∷ cs) given = refl

abbrev Ensured : JumpRouteConfig → Ensuring → Type 0
Ensured r none = ⊥
Ensured r (some (res, specs)) = All (IsOwn r) specs

after_wait-Ensured :
    (r : JumpRouteConfig) (spec : PodSpec) (w : Waited)
    → IsOwn r spec
    → HasEnded w
    → Ensured r (after_wait spec w)
unfolding after_wait
after_wait-Ensured r spec none o h = cc (h.1)
after_wait-Ensured r spec (some (ok u)) o h = (o, tt)
after_wait-Ensured r spec (some (err e)) o h = (o, tt)

after_get-Ensured :
    (r : JumpRouteConfig) (spec : PodSpec) (w : Waited) (created got : Option ApiError)
    → IsOwn r spec
    → HasEnded w
    → Ensured r (after_get spec w created got)
unfolding after_get after_create
after_get-Ensured r spec w created none o h = tt
after_get-Ensured r spec w created (some e) o h = elim (Bool-cases (not e.not_found)) [
  | inl q ↦ rw q tt
  | inr q ↦ rw q (create created)
]
  where
    create : (created : Option ApiError) → Ensured r (after_create spec w created)
    create none = unfold after_create in after_wait-Ensured r spec w o h
    create (some x) = elim (Bool-cases x.already_exists) [
      | inl q ↦ unfold after_create in rw q (o, tt)
      | inr q ↦ unfold after_create in rw q (o, tt)
    ]

-- The pod that is discovered.
abbrev Discovered :
    {Selector : Type 0}
    → Cluster Selector
    → JumpRouteConfig
    → Option (Result Error (Bytes × Bytes) × List PodSpec)
    → Type 0
Discovered cluster r none = ⊥
Discovered cluster r (some (err e, specs)) = All (IsOwn r) specs
Discovered cluster r (some (ok (pod, container), specs)) =
    All (IsOwn r) specs
    × (r.via.pod ≢ [] → pod ≡ r.via.pod)
    × (container ≡ r.via.container)
    × (r.via.pod ≡ [] → OfService cluster r pod)

abbrev FromService :
    {Selector : Type 0} → Cluster Selector → JumpRouteConfig → Result Error (Bytes × Bytes) → Type 0
FromService cluster r (err e) = Unit
FromService cluster r (ok (pod, container)) =
    (container ≡ r.via.container) × OfService cluster r pod

container_of_given : (s : Bytes) → s ≢ [] → container_of s ≡ some s
container_of_given [] given = absurd (given refl)
container_of_given (c ∷ s) given = refl

run_exec-IsHandled :
    {Selector : Type 0} (cluster : Cluster Selector) (s : Streaming) (r : JumpRouteConfig)
    (e : Exec) (specs : List PodSpec)
    → All (IsOwn r) specs
    → IsRun cluster r e
    → IsHandled cluster r (some (run_exec s e, specs))
unfolding run_exec
run_exec-IsHandled cluster s r e specs own run = elim (Option-cases s.executor) [
  | inl q ↦ rw q (own, run)
  | inr (x, q) ↦ rw q (own, (_, refl))
]

module _ {Selector : Type 0} where
  ensure_jump_pod_exists-Ensured :
      (n : ℕ) (cluster : Cluster Selector) (r : JumpRouteConfig)
      → IsFair n cluster r
      → Ensured r (ensure_jump_pod_exists (suc n) cluster r)
  unfolding ensure_jump_pod_exists created_from
  ensure_jump_pod_exists-Ensured n cluster r f = from r.via.create refl
    where
      from :
          (o : Option CreateConfig)
          → r.via.create ≡ o
          → Ensured r (elim o [
            | none ↦ some (ok tt, [])
            | some c ↦
                after_get
                  (build_jump_pod_spec r c)
                  (created_from c (build_jump_pod_spec r c) (suc n) cluster.start cluster.polls)
                  (cluster.create_pod (build_jump_pod_spec r c))
                  (cluster.get_pod r.namespace r.via.pod)
          ])
      from none q = tt
      from (some c) q =
          after_get-Ensured r (build_jump_pod_spec r c) _ _ _ (build_jump_pod_spec-IsOwn r c q) (
            unfold created_from in
            (let (res, ended, fine) =
                wait_for_pod_ready-ends n (build_jump_pod_spec r c).name cluster.start
                  (wait_timeout c.timeout) cluster.polls f.started f.paced (f.enough c q) in
              (res, ended)))

  found_pod-FromService :
      (cluster : Cluster Selector) (r : JumpRouteConfig) (s : Service Selector)
      (l : Result Error (List Pod)) (service selector : Bytes)
      → cluster.get_service r.namespace r.via.service ≡ ok s
      → cluster.list_pods r.namespace s.selector ≡ l
      → FromService cluster r (found_pod r.via.container (find_ready_pod l service selector))
  unfolding found_pod
  found_pod-FromService cluster r s (err e) service selector q l = unfold find_ready_pod in tt
  found_pod-FromService cluster r s (ok []) service selector q l = unfold find_ready_pod in tt
  found_pod-FromService cluster r s (ok (p ∷ ps)) service selector q l =
      let (best, found, chosen) = find_ready_pod-Best p ps service selector in
      rw (found, found_pod)
        (
          refl,
          record {
            service = s;
            got = q;
            pods = p ∷ ps;
            listed = l;
            best = best;
            chosen = chosen;
            of_best = refl;
          },
        )

  service_pod-FromService :
      (cluster : Cluster Selector) (r : JumpRouteConfig) (s : Result Error (Service Selector))
      → cluster.get_service r.namespace r.via.service ≡ s
      → FromService cluster r (service_pod cluster r s)
  unfolding service_pod
  service_pod-FromService cluster r (err e) q = tt
  service_pod-FromService cluster r (ok s) q = found_pod-FromService cluster r s _ _ _ q refl

  discover_jump_pod-Discovered :
      (n : ℕ) (cluster : Cluster Selector) (r : JumpRouteConfig)
      → IsFair n cluster r
      → Discovered cluster r (discover_jump_pod (suc n) cluster r)
  unfolding discover_jump_pod
  discover_jump_pod-Discovered n cluster r f = elim (Bool-cases (not (is_empty r.via.pod))) [
    | inl q ↦ rw q (named (given_pod r.via.pod q) _ (ensure_jump_pod_exists-Ensured n cluster r f))
    | inr q ↦ rw q (
        of_service (service_pod cluster r _) (no_pod r.via.pod q)
          (service_pod-FromService cluster r _ refl))
  ]
    where
      named :
          r.via.pod ≢ []
          → (e : Ensuring) → Ensured r e
          → Discovered cluster r (named_pod r.via.pod r.via.container e)
      named given none h = h
      named given (some (ok u, specs)) h =
          unfold named_pod in (h, (λ given. refl), refl, λ e. absurd (given e))
      named given (some (err e, specs)) h = unfold named_pod in h

      given_pod : (pod : Bytes) → not (is_empty pod) ≡ true → pod ≢ []
      given_pod [] q e = cc (q)
      given_pod (c ∷ s) q e = cc (e)

      no_pod : (pod : Bytes) → not (is_empty pod) ≡ false → pod ≡ []
      no_pod [] q = refl
      no_pod (c ∷ s) q = cc (q)

      of_service :
          (p : Result Error (Bytes × Bytes))
          → r.via.pod ≡ []
          → FromService cluster r p
          → Discovered cluster r (some (p, []))
      of_service (err e) q h = tt
      of_service (ok (pod, container)) q h = (tt, (λ given. absurd (given q)), h.0, λ e. h.1)

  -- A jump connection is handled to an end, given a fair cluster. It makes no pods but the one that its
  -- route describes: of the route's name and namespace, with the image and the command it asks for.
  -- What it runs is a shell with the one line of its target, whose variable parts are plain words: the
  -- host of the target, in brackets exactly where it is an IPv6 address, and its port in decimal. It
  -- runs in the namespace of the route, in the pod that the route names, or else in the best pod of its
  -- service, and in its container, if it names one; and where nothing is run there is an error.
  pub handle_jump-IsHandled :
      (quote : Bytes → Bytes) (rest_config : Bool) (n : ℕ) (cluster : Cluster Selector)
      (s : Streaming) (r : JumpRouteConfig)
      → IsFair n cluster r
      → IsHandled cluster r (handle_jump quote rest_config (suc n) cluster s r)
  unfolding handle_jump
  handle_jump-IsHandled quote true n cluster s r f =
      from _ (discover_jump_pod-Discovered n cluster r f)
    where
      run :
          (specs : List PodSpec) (pod container : Bytes) (b : Result CommandError Bytes)
          → build_forward_command r.target ≡ b
          → All (IsOwn r) specs
          → (r.via.pod ≢ [] → pod ≡ r.via.pod)
          → container ≡ r.via.container
          → (r.via.pod ≡ [] → OfService cluster r pod)
          → IsHandled cluster r (some (with_command quote s r (pod, container) b, specs))
      run specs pod container (err e) q own named same served =
          unfold with_command in (own, (_, refl))
      run specs pod container (ok cmd) q own named same served =
          unfold with_command in
          run_exec-IsHandled cluster s r _ specs own (record {
            in_namespace = refl;
            in_pod = named;
            in_service = served;
            in_container = λ given. rw same (container_of_given r.via.container given);
            in_first = λ e. rw (same, e) refl;
            text = cmd;
            by_shell = refl;
            plain = build_forward_command-IsCommand r.target cmd q;
          })

      from :
          (d : Option (Result Error (Bytes × Bytes) × List PodSpec))
          → Discovered cluster r d
          → IsHandled cluster r (with_pod quote s r d)
      from none h = h
      from (some (err e, specs)) h = unfold with_pod in (h, (_, refl))
      from (some (ok (pod, container), specs)) h =
          unfold with_pod in run specs pod container _ refl h.0 h.1 h.2 h.3
  handle_jump-IsHandled quote false n cluster s r f = (tt, (_, refl))
