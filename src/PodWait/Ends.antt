-- ===== src/PodWait/Ends.antt =====
-- How the wait for a pod ends.
use lazyfwd.Base.{
  ℕ, zero, suc, ◌+◌, ◌*◌, ◌≤◌, ◌<◌, ◌≡◌, refl, ap, ◌∙◌, subst, true, Option, none, some, arith,
  Bytes, bytes_eq, codes, ltb, Result, ok, err, ◌==◌, Bool-cases, inl, inr,
}
use lazyfwd.Tunnel.{Error}
use lazyfwd.Discovery.{Pod, has_ready}
use lazyfwd.PodWait.{
  ApiError, Poll, poll_interval, Waited, go_on, after_get, wait_from, wait_for_pod_ready,
}

abbrev pub HasEnded : Waited → Type 0
HasEnded w = (r : Result Error (Unit {0})) × (w ≡ some r)

go_on-HasEnded : (c : Option Error) (w : Waited) → HasEnded w → HasEnded (go_on c w)
unfolding go_on
go_on-HasEnded (some e) w h = (err e, refl)
go_on-HasEnded none w h = h

after_get-HasEnded :
    (name : Bytes) (c : Option Error) (got : Result ApiError Pod) (w : Waited)
    → HasEnded w
    → HasEnded (after_get name c got w)
unfolding after_get
after_get-HasEnded name c (err e) w h = elim (Bool-cases e.not_found) [
  | inl q ↦ rw q (_, refl)
  | inr q ↦ rw q (go_on-HasEnded c w h)
]
after_get-HasEnded name c (ok pod) w h = elim (Bool-cases (has_ready pod.conditions)) [
  | inl q ↦ rw q (_, refl)
  | inr q ↦ elim (Bool-cases (pod.phase == codes "Failed")) [
    | inl f ↦ rw (q, f) (_, refl)
    | inr f ↦ rw (q, f) (go_on-HasEnded c w h)
  ]
]

-- With a round that begins after the deadline the wait is over.
late-HasEnded :
    (n : ℕ) (name : Bytes) (deadline : ℕ) (polls : ℕ → Poll) (k : ℕ)
    → deadline < (polls (n + k)).time
    → HasEnded (wait_from (suc n) name deadline polls k)
unfolding wait_from
late-HasEnded zero name deadline polls k late =
    let e : 0 + k ≡ k = omega arith in
    let l : deadline < (polls k).time = rw e at late in
    let q : ltb deadline (polls k).time ≡ true = ground arith in rw q (_, refl)
late-HasEnded (suc n) name deadline polls k late = elim (Bool-cases (ltb deadline (polls k).time)) [
  | inl q ↦ rw q (_, refl)
  | inr q ↦ rw q (
      after_get-HasEnded name (polls k).cancelled (polls k).got _ (
        late-HasEnded n name deadline polls (suc k) (
          let e : suc n + k ≡ n + suc k = omega arith in
          subst (λ j. deadline < (polls j).time) e late)))
]

clock :
    (polls : ℕ → Poll) (start n : ℕ)
    → start ≤ (polls 0).time
    → ((k : ℕ) → (polls k).time + poll_interval ≤ (polls (suc k)).time)
    → start + n * poll_interval ≤ (polls n).time
clock polls start zero s h = omega (arith, s)
clock polls start (suc n) s h = omega (arith, clock polls start n s h, h n)

-- A pod that was ready in a round that began by the deadline.
pub record WasReady (deadline : ℕ) (polls : ℕ → Poll) (from : ℕ) : Type 0 where
  pub round : ℕ
  pub pod : Pod
  pub later : from ≤ round
  pub in_time : (polls round).time ≤ deadline
  pub seen : (polls round).got ≡ ok pod
  pub ready : has_ready pod.conditions ≡ true

go_on-ok : (c : Option Error) (w : Waited) → go_on c w ≡ some (ok tt) → w ≡ some (ok tt)
unfolding go_on
go_on-ok (some e) w h = cc (h)
go_on-ok none w h = h

after_get-WasReady :
    (name : Bytes) (deadline : ℕ) (polls : ℕ → Poll) (k : ℕ) (w : Waited)
    (got : Result ApiError Pod)
    → (polls k).got ≡ got
    → (polls k).time ≤ deadline
    → (w ≡ some (ok tt) → WasReady deadline polls k)
    → after_get name (polls k).cancelled got w ≡ some (ok tt)
    → WasReady deadline polls k
unfolding after_get
after_get-WasReady name deadline polls k w (err e) g t next s = elim (Bool-cases e.not_found) [
  | inl q ↦ cc (rw q at s)
  | inr q ↦ next (go_on-ok (polls k).cancelled w (rw q at s))
]
after_get-WasReady name deadline polls k w (ok pod) g t next s =
    elim (Bool-cases (has_ready pod.conditions)) [
      | inl q ↦ record {
        round = k;
        pod = pod;
        later = omega arith;
        in_time = t;
        seen = g;
        ready = q;
      }
      | inr q ↦ elim (Bool-cases (pod.phase == codes "Failed")) [
        | inl f ↦ cc (rw (q, f) at s)
        | inr f ↦ next (go_on-ok (polls k).cancelled w (rw (q, f) at s))
      ]
    ]

sooner :
    {deadline : ℕ} {polls : ℕ → Poll} (k : ℕ)
    → WasReady deadline polls (suc k)
    → WasReady deadline polls k
sooner k w = record {
  round = w.round;
  pod = w.pod;
  later = omega (arith, w.later);
  in_time = w.in_time;
  seen = w.seen;
  ready = w.ready;
}

wait_from-WasReady :
    (n : ℕ) (name : Bytes) (deadline : ℕ) (polls : ℕ → Poll) (k : ℕ)
    → wait_from n name deadline polls k ≡ some (ok tt)
    → WasReady deadline polls k
unfolding wait_from
wait_from-WasReady zero name deadline polls k h = cc (h)
wait_from-WasReady (suc n) name deadline polls k h =
    elim (Bool-cases (ltb deadline (polls k).time)) [
      | inl q ↦ cc (rw q at h)
      | inr q ↦
          after_get-WasReady name deadline polls k _ (polls k).got refl (ground arith)
            (λ e. sooner k (wait_from-WasReady n name deadline polls (suc k) e)) (rw q at h)
    ]

-- Rounds that begin at least the interval of a poll after each other end the wait for a pod, after at
-- most one round more than intervals are needed to exceed the timeout, whatever the API server
-- answers; and the wait ends without an error only if a round that began by the deadline has
-- seen the pod ready.
pub wait_for_pod_ready-ends :
    (n : ℕ) (name : Bytes) (start timeout : ℕ) (polls : ℕ → Poll)
    → start ≤ (polls 0).time
    → ((k : ℕ) → (polls k).time + poll_interval ≤ (polls (suc k)).time)
    → timeout < n * poll_interval
    → (r : Result Error (Unit {0})) × (wait_for_pod_ready (suc n) name start timeout polls ≡ some r)
      × (r ≡ ok tt → WasReady (start + timeout) polls 0)
unfolding wait_for_pod_ready
wait_for_pod_ready-ends n name start timeout polls s h enough =
    let e : n + 0 ≡ n = omega arith in
    let late : start + timeout < (polls n).time = omega (arith, clock polls start n s h, enough) in
    let (r, q) = late-HasEnded n name (start + timeout) polls 0 (rw e late) in
    (
      r,
      q,
      λ fine. wait_from-WasReady (suc n) name (start + timeout) polls 0 (q ∙ ap (λ x. some x) fine),
    )
