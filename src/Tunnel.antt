-- ===== src/Tunnel.antt =====
-- internal/tunnel: one tunnel. Each function between a lock and its unlock is one function here.
-- `none` is a panic of the Go runtime, by which closing a closed channel ends. An error is its
-- message. What Kubernetes, the forwarder and the timers do while a tunnel starts is an argument.
pub mod Laws
pub mod Names
pub mod Await
mod Tests
use lazyfwd.Base.{
  ℕ, ◌-◌, Bool, true, false, ◌||◌, Option, none, some, List, [], ◌∷◌, ◌++◌, Bytes, codes, is_empty,
  if◌then◌else◌, Result, ok, err,
}
use lazyfwd.Base.Int.{ℤ, pos}
use lazyfwd.Text.{format_int}
use lazyfwd.Config.{K8sRouteConfig}

abbrev pub Error : Type 0
Error = Bytes

pub data State : Type 0 where
  idle starting running stopping failed : State

-- `State.String`
unfoldable pub state_string : State → Bytes
state_string idle = codes "idle"
state_string starting = codes "starting"
state_string running = codes "running"
state_string stopping = codes "stopping"
state_string failed = codes "failed"

-- A `chan struct{}` that is only ever closed.
pub data Chan : Type 0 where
  nil_chan open_chan closed_chan : Chan

pub record Tunnel (Client : Type 0) : Type 0 where
  pub hostname : Bytes
  pub config : K8sRouteConfig
  pub listen_addr : Bytes
  pub verbose : Bool
  pub client : Client
  pub state : State
  pub local_port : ℕ
  pub last_access : ℕ
  pub stop_chan : Chan
  pub last_error : Option Error

-- What the environment answers to `waitForReady`.
pub data Outcome : Type 0 where
  -- the ready channel: the local ports that were forwarded, or the error of `GetPorts`
  ready : Result Error (List ℕ) → Outcome
  -- the forwarder ended early, with an error or with nil
  ended : Option Error → Outcome
  cancelled : Error → Outcome
  timed_out : Outcome

-- What the code gives to `portforward.New`: the namespace and the pod of the request, and the ports.
pub record PortForwarder : Type 0 where
  pub namespace : Bytes
  pub pod : Bytes
  pub ports : List Bytes

-- The answers that one start meets: to the discovery of the pod (the error that
-- `setFailed` records, and the one that is returned), to the making of a transport and
-- of a forwarder, and to the wait for that forwarder.
pub record Attempt : Type 0 where
  pub discovery : Result (Error × Error) (Bytes × ℤ)
  pub transport : Option Error
  pub forwarder : PortForwarder → Option Error
  pub outcome : PortForwarder → Outcome

-- What the first critical section of `Start` decides.
pub data Decision : Type 0 where
  already_running join_other go_ahead : Decision

abbrev pub is_up : State → Bool
is_up running = true
is_up starting = true
is_up _ = false

-- `fmt.Errorf("port forward failed: %w", err)`, where `err` may be nil.
ended_message : Option Error → Error
ended_message (some e) = codes "port forward failed: " ++ e
ended_message none = codes "port forward failed: %!w(<nil>)"

-- `close(ch)`
unfoldable pub close : Chan → Option Chan
close open_chan = some closed_chan
close _ = none

module _ {Client : Type 0} where
  -- `NewTunnel`
  unfoldable pub new_tunnel : Bytes → K8sRouteConfig → Client → Bytes → Bool → ℕ → Tunnel Client
  new_tunnel hostname config client listen_addr verbose now = record {
    hostname = hostname;
    config = config;
    listen_addr = listen_addr;
    verbose = verbose;
    client = client;
    state = idle;
    local_port = 0;
    last_access = now;
    stop_chan = nil_chan;
    last_error = none;
  }

  -- `Touch`
  unfoldable pub touch : ℕ → Tunnel Client → Tunnel Client
  touch now t = record t { last_access = now }

  -- `IdleDuration`: the clock is monotonic, so `now` is not before the last access.
  unfoldable pub idle_duration : ℕ → Tunnel Client → ℤ
  idle_duration now t = pos (now - t.last_access)

  -- `IsRunning`
  unfoldable pub is_running : Tunnel Client → Bool
  is_running t = elim t.state [ running ↦ true | _ ↦ false ]

  -- `Scheme`
  unfoldable pub scheme : Tunnel Client → Bytes
  scheme t = if is_empty t.config.scheme then codes "http" else t.config.scheme

  -- `setFailed`
  unfoldable pub set_failed : Option Error → Tunnel Client → Tunnel Client
  set_failed e t = record t { last_error = e; state = failed }

  -- `if t.stopChan != nil { close(t.stopChan) }`
  unfoldable pub close_stop : Chan → Tunnel Client → Option (Tunnel Client)
  close_stop nil_chan t = some t
  close_stop open_chan t = some (record t { stop_chan = closed_chan })
  close_stop closed_chan t = none

  -- `MarkFailed`
  unfoldable pub mark_failed : Error → Tunnel Client → Option (Tunnel Client)
  unfolding close_stop
  mark_failed e t =
      if is_up t.state
      then close_stop t.stop_chan (record t { last_error = some e; state = failed })
      else some t

  abbrev then_idle : Option (Tunnel Client) → Option (Tunnel Client)
  then_idle none = none
  then_idle (some t) = some (record t { state = idle })

  -- `Stop`
  unfoldable pub stop : Tunnel Client → Option (Tunnel Client)
  unfolding close_stop is_running
  stop t =
      if is_running t
      then then_idle (close_stop t.stop_chan (record t { state = stopping }))
      else some t

  -- `handleReady`: `err` where no port came out of the forwarder.
  unfoldable pub handle_ready :
      Result Error (List ℕ) → Tunnel Client → Result Error (Unit {0}) × Tunnel Client
  unfolding set_failed
  handle_ready (err e) t =
      (err (codes "failed to get forwarded ports: " ++ e), set_failed (some e) t)
  handle_ready (ok []) t =
      let e : Error = codes "no ports were forwarded" in (err e, set_failed (some e) t)
  handle_ready (ok (port ∷ ports)) t = (ok tt, record t { local_port = port; state = running })

  -- `close(t.stopChan)`, with no test for nil
  abbrev with_close :
      (Tunnel Client → Result Error (Unit {0}) × Tunnel Client)
      → Tunnel Client
      → Option (Result Error (Unit {0}) × Tunnel Client)
  with_close f t = elim (close t.stop_chan) [
    | none ↦ none
    | some c ↦ some (f (record t { stop_chan = c }))
  ]

  -- `waitForReady`
  unfoldable pub wait_for_ready :
      Outcome → Tunnel Client → Option (Result Error (Unit {0}) × Tunnel Client)
  unfolding handle_ready set_failed close ended_message
  wait_for_ready (ready ports) t = some (handle_ready ports t)
  wait_for_ready (ended e) t = some (err (ended_message e), set_failed e t)
  wait_for_ready (cancelled e) t = with_close (λ u. (err e, record u { state = idle })) t
  wait_for_ready timed_out t =
      let e : Error = codes "timeout waiting for port forward to be ready" in
      with_close (λ u. (err e, set_failed (some e) u)) t

  -- `createPortForwarder`: the channels are made between the two steps that may fail. Port 0 lets the
  -- system choose a local port.
  unfoldable pub create_port_forwarder :
      Attempt → Bytes × ℤ → Tunnel Client → Result Error PortForwarder × Tunnel Client
  unfolding set_failed
  create_port_forwarder a (pod_name, target_port) t = elim a.transport [
    | some e ↦ (err (codes "failed to create round tripper: " ++ e), set_failed (some e) t)
    | none ↦
        let u = record t { stop_chan = open_chan } in
        let fw : PortForwarder = record {
          namespace = t.config.namespace;
          pod = pod_name;
          ports = (codes "0:" ++ format_int target_port) ∷ [];
        } in
        elim (a.forwarder fw) [
          | some e ↦ (err (codes "failed to create port forwarder: " ++ e), set_failed (some e) u)
          | none ↦ (ok fw, u)
        ]
  ]

  after_forwarder :
      Attempt
      → Result Error PortForwarder × Tunnel Client
      → Option (Result Error (Unit {0}) × Tunnel Client)
  unfolding wait_for_ready
  after_forwarder a (err e, t) = some (err e, t)
  after_forwarder a (ok fw, t) = wait_for_ready (a.outcome fw) t

  -- `startPortForward`. What failed in the discovery has been recorded by `setFailed`.
  unfoldable pub start_port_forward :
      Attempt → Tunnel Client → Option (Result Error (Unit {0}) × Tunnel Client)
  unfolding after_forwarder create_port_forwarder
  start_port_forward a t = elim a.discovery [
    | err (recorded, returned) ↦ some (err returned, set_failed (some recorded) t)
    | ok target ↦ after_forwarder a (create_port_forwarder a target t)
  ]

  unfoldable pub start_begin : Tunnel Client → Decision × Tunnel Client
  start_begin t = elim t.state [
    | running ↦ (already_running, t)
    | starting ↦ (join_other, t)
    | _ ↦ (go_ahead, record t { state = starting })
  ]

  unfoldable pub start_decided :
      (Tunnel Client → Option (Result Error (Unit {0}) × Tunnel Client))
      → Attempt
      → Decision × Tunnel Client
      → Option (Result Error (Unit {0}) × Tunnel Client)
  start_decided joined a (already_running, t) = some (ok tt, t)
  start_decided joined a (join_other, t) = joined t
  start_decided joined a (go_ahead, t) = start_port_forward a t

  -- `Start`; `joined` is what `awaitReady` does for a caller who finds a start under way.
  unfoldable pub start :
      (Tunnel Client → Option (Result Error (Unit {0}) × Tunnel Client))
      → Attempt
      → Tunnel Client
      → Option (Result Error (Unit {0}) × Tunnel Client)
  unfolding start_port_forward start_begin start_decided
  start joined a t = start_decided joined a (start_begin t)

  -- `monitorErrors`, when the forwarder of a running tunnel ends.
  unfoldable pub monitor_errors : Option Error → Tunnel Client → Tunnel Client
  unfolding set_failed
  monitor_errors none t = t
  monitor_errors (some e) t = set_failed (some e) t
