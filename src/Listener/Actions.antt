-- ===== src/Listener/Actions.antt =====
-- Sequences of actions on the listener between the network and the HTTP server, and what is to hold of
-- them.
use lazyfwd.Base.{
  ℕ, ◌≤◌, ◌≡◌, ◌≢◌, Bool, false, Option, none, some, List, [], ◌∷◌, ◌++◌, length, Result, ok, err,
}
use lazyfwd.Tunnel.{Error}
use lazyfwd.Listener.{
  MuxListener, Routed, to_tls, dropped, handle_connection, accept, close_server, close_mux,
}

-- What happens to the listener: a connection whose first byte has been peeked, an `Accept` of the HTTP
-- server, and the two closes of the shutdown.
pub data Action (Conn : Type 0) : Type 0 where
  arrives : Bool → Result Error ℕ → Conn → Action Conn
  accepts : Bool → Action Conn
  closes_server closes_mux : Action Conn

-- The connections that were passed to the TLS handler, that the HTTP server has accepted, and that
-- were closed.
pub record Log (Conn : Type 0) : Type 0 where
  pub tls : List Conn
  pub accepted : List Conn
  pub closed : List Conn

-- The connections that arrive, in their order: those whose first byte is that of a TLS handshake, and
-- the others, for which there may be no first byte.
pub data Sorts {Conn : Type 0} : List (Action Conn) → List Conn → List Conn → Type 0 where
  nothing : Sorts [] [] []
  hello :
      {as' : List (Action Conn)} {t h : List Conn} (prefer : Bool) (peeked : Result Error ℕ)
      (c : Conn)
      → peeked ≡ ok 0x16
      → Sorts as' t h
      → Sorts (arrives prefer peeked c ∷ as') (c ∷ t) h
  other :
      {as' : List (Action Conn)} {t h : List Conn} (prefer : Bool) (peeked : Result Error ℕ)
      (c : Conn)
      → peeked ≢ ok 0x16
      → Sorts as' t h
      → Sorts (arrives prefer peeked c ∷ as') t (c ∷ h)
  between :
      {as' : List (Action Conn)} {t h : List Conn} (prefer : Bool)
      → Sorts as' t h
      → Sorts (accepts prefer ∷ as') t h

module _ {Conn : Type 0} where
  abbrev pub empty_log : Log Conn
  empty_log = record { tls = []; accepted = []; closed = [] }

  abbrev pub log_routed : Routed Conn → Log Conn
  log_routed (to_tls c) = record empty_log { tls = c ∷ [] }
  log_routed (dropped c) = record empty_log { closed = c ∷ [] }
  log_routed _ = empty_log

  abbrev pub after_accept :
      MuxListener Conn
      → Option (Result (Unit {0}) Conn × MuxListener Conn)
      → Log Conn × MuxListener Conn
  after_accept m (some (ok c, m')) = (record empty_log { accepted = c ∷ [] }, m')
  after_accept m (some (err u, m')) = (empty_log, m')
  after_accept m none = (empty_log, m)

  -- One action
  unfoldable pub act : Action Conn → MuxListener Conn → Log Conn × MuxListener Conn
  act (arrives prefer peeked c) m =
      let r = handle_connection prefer peeked c m in (log_routed r.0, r.1)
  act (accepts prefer) m = after_accept m (accept prefer m)
  act closes_server m = let r = close_server m in (record empty_log { closed = r.0 }, r.1)
  act closes_mux m = (empty_log, close_mux m)

  abbrev pub joined : Log Conn → Log Conn → Log Conn
  joined k l = record {
    tls = k.tls ++ l.tls;
    accepted = k.accepted ++ l.accepted;
    closed = k.closed ++ l.closed;
  }

  unfoldable pub run : List (Action Conn) → MuxListener Conn → Log Conn × MuxListener Conn
  unfolding act
  run [] m = (empty_log, m)
  run (a ∷ as') m = let r = act a m in let s = run as' r.1 in (joined r.0 s.0, s.1)

  -- Neither close has happened; the queue holds no more than 256 connections, and others wait only
  -- while it is full.
  pub record IsServing (m : MuxListener Conn) : Type 0 where
    pub serving : m.server_done ≡ false
    pub listening : m.done ≡ false
    pub bounded : length m.http_conns ≤ 256
    pub full : m.waiting ≢ [] → length m.http_conns ≡ 256

  -- Actions without the shutdown
  abbrev pub NoShutdown : List (Action Conn) → Type 0
  NoShutdown [] = Unit
  NoShutdown (arrives prefer peeked c ∷ as') = NoShutdown as'
  NoShutdown (accepts prefer ∷ as') = NoShutdown as'
  NoShutdown (closes_server ∷ as') = ⊥
  NoShutdown (closes_mux ∷ as') = ⊥

  -- Every connection that arrived is in its place: the TLS ones were passed to their handler; of the
  -- others, after those that were there before, the first were accepted, the next are in the queue, and
  -- the last wait. None was closed, and the next `Accept` returns the first of the queue.
  pub record IsKept (as' : List (Action Conn)) (m : MuxListener Conn)
      (r : Log Conn × MuxListener Conn) : Type 0 where
    pub http : List Conn
    pub sorted : Sorts as' r.0.tls http
    pub in_order :
        r.0.accepted ++ (r.1.http_conns ++ r.1.waiting) ≡ (m.http_conns ++ m.waiting) ++ http
    pub none_closed : r.0.closed ≡ []
    pub still : IsServing r.1
    pub next :
        (prefer : Bool) (c : Conn) (cs : List Conn)
        → r.1.http_conns ≡ c ∷ cs
        → (m' : MuxListener Conn) × (accept prefer r.1 ≡ some (ok c, m'))
