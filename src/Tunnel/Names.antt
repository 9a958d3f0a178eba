-- ===== src/Tunnel/Names.antt =====
-- The hostname of a tunnel under its operations.
use lazyfwd.Base.{
  ◌≡◌, refl, Option, none, some, [], ◌∷◌, arith, ok, err, Option-cases, Result-cases, inl, inr,
}
use lazyfwd.Tunnel.{
  Error, State, idle, starting, running, stopping, failed, Tunnel, Outcome, Attempt, ready, ended,
  cancelled, timed_out, close, wait_for_ready, start_port_forward, start_begin, go_ahead, start,
  mark_failed, open_chan, close_stop,
}
use lazyfwd.Tunnel.Laws.{forwarder_of, IsSettled, Start}

abbrev pub KeepsName {ℓ} :
    {Client : Type 0} {A : Type ℓ} → Tunnel Client → Option (A × Tunnel Client) → Type 0
KeepsName t none = Unit
KeepsName t (some (r, u)) = u.hostname ≡ t.hostname

module _ {Client : Type 0} where
  wait_for_ready-KeepsName : (o : Outcome) (t : Tunnel Client) → KeepsName t (wait_for_ready o t)
  unfolding wait_for_ready
  wait_for_ready-KeepsName (ready (ok [])) t = refl
  wait_for_ready-KeepsName (ready (ok (p ∷ ps))) t = refl
  wait_for_ready-KeepsName (ready (err e)) t = refl
  wait_for_ready-KeepsName (ended e) t = refl
  wait_for_ready-KeepsName (cancelled e) t = elim (Option-cases (close t.stop_chan)) [
    | inl q ↦ rw (q, KeepsName) tt
    | inr (c, q) ↦ rw (q, KeepsName) refl
  ]
  wait_for_ready-KeepsName timed_out t = elim (Option-cases (close t.stop_chan)) [
    | inl q ↦ rw (q, KeepsName) tt
    | inr (c, q) ↦ rw (q, KeepsName) refl
  ]

  start_port_forward-KeepsName :
      (a : Attempt) (t : Tunnel Client) → KeepsName t (start_port_forward a t)
  unfolding start_port_forward
  start_port_forward-KeepsName a t = elim (Result-cases a.discovery) [
    | inr ((recorded, returned), e) ↦ rw (e, start_port_forward) refl
    | inl ((pod, port), e) ↦ elim (Option-cases a.transport) [
      | inr (x, f) ↦ rw (e, f, start_port_forward) refl
      | inl f ↦ elim (Option-cases (a.forwarder (forwarder_of pod port t))) [
        | inr (x, g) ↦ rw (e, f, g, start_port_forward) refl
        | inl g ↦
            rw (e, f, g, start_port_forward)
              (wait_for_ready-KeepsName (a.outcome (forwarder_of pod port t))
                (record t { stop_chan = open_chan }))
      ]
    ]
  ]

  pub start-KeepsName :
      (joined : Start Client) (a : Attempt) (t : Tunnel Client)
      → IsSettled t
      → KeepsName t (start joined a t)
  unfolding start
  start-KeepsName joined a t h = from t.state refl
    where
      ahead :
          start_begin t ≡ (go_ahead, record t { state = starting }) → KeepsName t (start joined a t)
      ahead e = rw (e, start) (start_port_forward-KeepsName a (record t { state = starting }))

      from : (s : State) → t.state ≡ s → KeepsName t (start joined a t)
      from running e = unfold start_begin in rw e refl
      from starting e = absurd (h.not_starting e)
      from stopping e = absurd (h.not_stopping e)
      from idle e = ahead (unfold start_begin in rw e refl)
      from failed e = ahead (unfold start_begin in rw e refl)

  pub mark_failed-name :
      (e : Error) (t u : Tunnel Client) → mark_failed e t ≡ some u → u.hostname ≡ t.hostname
  unfolding mark_failed close_stop
  mark_failed-name e t u h = ground arith
