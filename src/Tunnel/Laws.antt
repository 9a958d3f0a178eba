-- ===== src/Tunnel/Laws.antt =====
-- The life of one tunnel.
use lazyfwd.Base.{
  ◌≡◌, ◌≢◌, ◌⊎◌, refl, inl, inr, Option-cases, Result-cases, Option, none, some, [], ◌∷◌, arith,
  Result, ok, err, Bytes, ◌++◌, codes,
}
use lazyfwd.Base.Int.{ℤ}
use lazyfwd.Text.{format_int}
use lazyfwd.Tunnel.{
  Error, State, idle, starting, running, stopping, failed, open_chan, Tunnel, Outcome, Attempt,
  PortForwarder, ready, ended, cancelled, timed_out, mark_failed, stop, start_begin, start,
  wait_for_ready, start_port_forward, go_ahead,
}

-- What holds of a tunnel while no start is under way: a running tunnel can be stopped, since its
-- channel is open, and it is in one of the three states that last.
pub record IsSettled {Client : Type 0} (t : Tunnel Client) : Type 0 where
  pub running_open : t.state ≡ running → t.stop_chan ≡ open_chan
  pub not_starting : t.state ≢ starting
  pub not_stopping : t.state ≢ stopping

abbrev pub Start : Type 0 → Type 0
Start Client = Tunnel Client → Option (Result Error (Unit {0}) × Tunnel Client)

-- The outcome of a start: no panic, a settled tunnel, and success exactly if it is running.
abbrev pub Started : {Client : Type 0} → Option (Result Error (Unit {0}) × Tunnel Client) → Type 0
Started none = ⊥
Started (some (ok u, t)) = IsSettled t × (t.state ≡ running)
Started (some (err e, t)) = IsSettled t × (t.state ≢ running)

module _ {Client : Type 0} where
  abbrev pub forwarder_of : Bytes → ℤ → Tunnel Client → PortForwarder
  forwarder_of pod port t = record {
    namespace = t.config.namespace;
    pod = pod;
    ports = (codes "0:" ++ format_int port) ∷ [];
  }

  -- Once its channel is open, a tunnel that is starting comes to an end of its start.
  wait_for_ready-Started :
      (o : Outcome) (t : Tunnel Client)
      → t.state ≡ starting
      → t.stop_chan ≡ open_chan
      → Started (wait_for_ready o t)
  unfolding wait_for_ready
  wait_for_ready-Started (ready (ok [])) t s c = ground arith
  wait_for_ready-Started (ready (ok (p ∷ ps))) t s c = ground arith
  wait_for_ready-Started (ready (err e)) t s c = ground arith
  wait_for_ready-Started (ended e) t s c = ground arith
  wait_for_ready-Started (cancelled e) t s c = rw c (ground arith)
  wait_for_ready-Started timed_out t s c = rw c (ground arith)

  start_port_forward-Started :
      (a : Attempt) (t : Tunnel Client) → t.state ≡ starting → Started (start_port_forward a t)
  unfolding start_port_forward
  start_port_forward-Started a t s = elim (Result-cases a.discovery) [
    | inr ((recorded, returned), e) ↦ rw (e, start_port_forward) (ground arith)
    | inl ((pod, port), e) ↦ elim (Option-cases a.transport) [
      | inr (x, f) ↦ rw (e, f, start_port_forward) (ground arith)
      | inl f ↦ elim (Option-cases (a.forwarder (forwarder_of pod port t))) [
        | inr (x, g) ↦ rw (e, f, g, start_port_forward) (ground arith)
        | inl g ↦
            rw (e, f, g, start_port_forward)
              (wait_for_ready-Started (a.outcome (forwarder_of pod port t))
                (record t { stop_chan = open_chan }) s refl)
      ]
    ]
  ]

  -- A start of a settled tunnel does not panic, whatever its environment answers, and leaves a
  -- settled tunnel, which is running exactly if the start succeeded.
  pub start-Started :
      (joined : Start Client) (a : Attempt) (t : Tunnel Client)
      → IsSettled t
      → Started (start joined a t)
  unfolding start
  start-Started joined a t h = from (t.state) refl
    where
      go :
          (s : State)
          → s ≢ running
          → s ≢ starting
          → t.state ≡ s
          → start_begin t ≡ (go_ahead, record t { state = starting })
      go idle r s e = unfold start_begin in rw e refl
      go stopping r s e = unfold start_begin in rw e refl
      go failed r s e = unfold start_begin in rw e refl
      go running r s e = absurd (r refl)
      go starting r s e = absurd (s refl)

      from : (s : State) → t.state ≡ s → Started (start joined a t)
      from running e = ground arith
      from starting e = absurd (h.not_starting e)
      from idle e =
          rw (go idle (cc) (cc) e, start)
            (start_port_forward-Started a (record t { state = starting }) refl)
      from stopping e = absurd (h.not_stopping e)
      from failed e =
          rw (go failed (cc) (cc) e, start)
            (start_port_forward-Started a (record t { state = starting }) refl)

  -- What remains when a settled tunnel is taken out of service: no panic, and it runs no more.
  abbrev pub Ended : Option (Tunnel Client) → Type 0
  Ended none = ⊥
  Ended (some t) = IsSettled t × (t.state ≢ running)

  pub mark_failed-Ended : (e : Error) (t : Tunnel Client) → IsSettled t → Ended (mark_failed e t)
  unfolding mark_failed
  mark_failed-Ended e t h = ground arith

  -- A tunnel that is idle or has failed is not touched by `Stop` nor by `MarkFailed`.
  pub ended_unchanged :
      (e : Error) (t : Tunnel Client)
      → (t.state ≡ idle) ⊎ (t.state ≡ failed)
      → (stop t ≡ some t) × (mark_failed e t ≡ some t)
  unfolding stop mark_failed
  ended_unchanged e t h = ground arith

  -- A running tunnel that is marked as failed, started again by one caller and marked as failed by
  -- another before the new start has made its channel, closes a closed channel: Go panics.
  pub mark_failed-panics :
      (e e' : Error) (t u v : Tunnel Client)
      → t.state ≡ running
      → t.stop_chan ≡ open_chan
      → mark_failed e t ≡ some u
      → start_begin u ≡ (go_ahead, v)
      → mark_failed e' v ≡ none
  unfolding mark_failed start_begin
  mark_failed-panics e e' t u v r c f b = ground arith
