-- ===== src/Listener/Order.antt =====
-- The connections between the network and the HTTP server.
use lazyfwd.Base.{
  ℕ, ◌≡◌, ◌≢◌, refl, sym, ap, ◌∙◌, Bool, true, false, none, some, List, [], ◌∷◌, ◌++◌, append_assoc,
  append-nil, arith, length, length-append, ltb, Result, ok, err, Bool-cases, inl, inr,
}
use lazyfwd.Tunnel.{Error}
use lazyfwd.Listener.{
  MuxListener, capacity, is_tls, queued, held, enqueue, handle_connection, refill, accept,
}
use lazyfwd.Listener.Actions.{
  Action, arrives, accepts, closes_server, closes_mux, Log, Sorts, nothing, hello, other, between,
  empty_log, log_routed, after_accept, act, run, IsServing, NoShutdown, IsKept,
}

is_tls_other : (peeked : Result Error ℕ) → is_tls peeked ≡ false → peeked ≢ ok 0x16
unfolding is_tls
is_tls_other (err e) q h = cc (h)
is_tls_other (ok b) q h = ground (arith, h, q)

is_tls_hello : (peeked : Result Error ℕ) → is_tls peeked ≡ true → peeked ≡ ok 0x16
unfolding is_tls
is_tls_hello (err e) q = cc (q)
is_tls_hello (ok b) q = ap ok (ground arith)

module _ {Conn : Type 0} where
  -- What one action does.
  record Kept (a : Action Conn) (m : MuxListener Conn) (r : Log Conn × MuxListener Conn)
      : Type 0 where
    http : List Conn
    sorts :
        (as' : List (Action Conn)) (t h : List Conn)
        → Sorts as' t h
        → Sorts (a ∷ as') (r.0.tls ++ t) (http ++ h)
    in_order : r.0.accepted ++ (r.1.http_conns ++ r.1.waiting) ≡ (m.http_conns ++ m.waiting) ++ http
    none_closed : r.0.closed ≡ []
    still : IsServing r.1

  none_waits : (m : MuxListener Conn) → IsServing m → length m.http_conns ≢ 256 → m.waiting ≡ []
  none_waits m k room = from m.waiting refl
    where
      from : (ws : List Conn) → m.waiting ≡ ws → ws ≡ []
      from [] e = refl
      from (w ∷ ws) e = absurd (room (k.full (λ n. cc (e, n))))

  enqueue_room :
      (prefer : Bool) (c : Conn) (m : MuxListener Conn)
      → m.server_done ≡ false
      → ltb (length m.http_conns) capacity ≡ true
      → enqueue prefer c m ≡ (queued c, record m { http_conns = m.http_conns ++ c ∷ [] })
  unfolding enqueue
  enqueue_room prefer c m serving room = ground (arith, room, serving)

  enqueue_full :
      (prefer : Bool) (c : Conn) (m : MuxListener Conn)
      → m.server_done ≡ false
      → ltb (length m.http_conns) capacity ≡ false
      → enqueue prefer c m ≡ (held c, record m { waiting = m.waiting ++ c ∷ [] })
  unfolding enqueue
  enqueue_full prefer c m serving room = ground (arith, room, serving)

  enqueue-Kept :
      (prefer prefer' : Bool) (peeked : Result Error ℕ) (c : Conn) (m : MuxListener Conn)
      → peeked ≢ ok 0x16
      → IsServing m
      → let r = enqueue prefer c m in Kept (arrives prefer' peeked c) m (log_routed r.0, r.1)
  enqueue-Kept prefer prefer' peeked c m ne k =
      elim (Bool-cases (ltb (length m.http_conns) capacity)) [
        | inl room ↦
            let alone : m.waiting ≡ [] = none_waits m k (λ e. ground arith) in
            rw (enqueue_room prefer c m k.serving room) (record {
              http = c ∷ [];
              sorts = λ as' t h s. other prefer' peeked c ne s;
              in_order =
                  rw (alone, append-nil (m.http_conns ++ c ∷ []), append-nil m.http_conns) refl;
              none_closed = refl;
              still = record {
                serving = k.serving;
                listening = k.listening;
                bounded = ground (arith, length-append m.http_conns (c ∷ []), room);
                full = λ w. absurd (w alone);
              };
            })
        | inr room ↦ rw (enqueue_full prefer c m k.serving room) (record {
          http = c ∷ [];
          sorts = λ as' t h s. other prefer' peeked c ne s;
          in_order = sym (append_assoc m.http_conns m.waiting (c ∷ []));
          none_closed = refl;
          still = record {
            serving = k.serving;
            listening = k.listening;
            bounded = k.bounded;
            full = λ w. ground (arith, room, k.bounded);
          };
        })
      ]

  arrives-Kept :
      (prefer : Bool) (peeked : Result Error ℕ) (c : Conn) (m : MuxListener Conn)
      → IsServing m
      → Kept (arrives prefer peeked c) m (act (arrives prefer peeked c) m)
  unfolding act handle_connection
  arrives-Kept prefer peeked c m k = elim (Bool-cases (is_tls peeked)) [
    | inr e ↦ rw e (enqueue-Kept prefer prefer peeked c m (is_tls_other peeked e) k)
    | inl e ↦ rw e (record {
      http = [];
      sorts = λ as' t h s. hello prefer peeked c (is_tls_hello peeked e) s;
      in_order = sym (append-nil (m.http_conns ++ m.waiting));
      none_closed = refl;
      still = k;
    })
  ]

  accept_first :
      (prefer : Bool) (c : Conn) (cs : List Conn) (m : MuxListener Conn)
      → m.http_conns ≡ c ∷ cs
      → m.done ≡ false
      → accept prefer m ≡ some (ok c, refill cs m.waiting m)
  unfolding accept
  accept_first prefer c cs m e listening = ground (arith, e, listening)

  refill-Kept :
      (prefer : Bool) (c : Conn) (cs ws : List Conn) (m : MuxListener Conn)
      → m.http_conns ≡ c ∷ cs
      → m.waiting ≡ ws
      → IsServing m
      → Kept (accepts prefer) m (record empty_log { accepted = c ∷ [] }, refill cs ws m)
  unfolding refill
  refill-Kept prefer c cs [] m e f k = record {
    http = [];
    sorts = λ as' t h s. between prefer s;
    in_order = simp (e, f, append-nil);
    none_closed = refl;
    still = record {
      serving = k.serving;
      listening = k.listening;
      bounded = let b = rw e at k.bounded in omega (arith, b);
      full = λ n. absurd (n refl);
    };
  }
  refill-Kept prefer c cs (w ∷ ws) m e f k = record {
    http = [];
    sorts = λ as' t h s. between prefer s;
    in_order =
        rw (e, f, append-nil ((c ∷ cs) ++ w ∷ ws)) (ap (◌∷◌ c) (append_assoc cs (w ∷ []) ws));
    none_closed = refl;
    still = record {
      serving = k.serving;
      listening = k.listening;
      bounded = let b = rw e at k.bounded in omega (arith, b, length-append cs (w ∷ []));
      full = λ n.
          let b = rw e at k.full (λ x. cc (f, x)) in omega (arith, b, length-append cs (w ∷ []));
    };
  }

  accepts-Kept :
      (prefer : Bool) (m : MuxListener Conn)
      → IsServing m
      → Kept (accepts prefer) m (act (accepts prefer) m)
  unfolding act
  accepts-Kept prefer m k = from m.http_conns refl
    where
      from :
          (cs : List Conn)
          → m.http_conns ≡ cs
          → Kept (accepts prefer) m (after_accept m (accept prefer m))
      from [] e =
          let waits : accept prefer m ≡ none = unfold accept in rw (e, k.listening) refl in
          rw waits (record {
            http = [];
            sorts = λ as' t h s. between prefer s;
            in_order = sym (append-nil (m.http_conns ++ m.waiting));
            none_closed = refl;
            still = k;
          })
      from (c ∷ cs) e =
          rw (accept_first prefer c cs m e k.listening)
            (refill-Kept prefer c cs m.waiting m e refl k)

  act-Kept :
      (a : Action Conn) (as' : List (Action Conn)) (m : MuxListener Conn)
      → NoShutdown (a ∷ as')
      → IsServing m
      → Kept a m (act a m) × NoShutdown as'
  act-Kept (arrives prefer peeked c) as' m n k = (arrives-Kept prefer peeked c m k, n)
  act-Kept (accepts prefer) as' m n k = (accepts-Kept prefer m k, n)
  act-Kept closes_server as' m n k = absurd n
  act-Kept closes_mux as' m n k = absurd n

  -- Until the shutdown, through any arrivals and accepts, no connection is lost. Those whose first byte
  -- is that of a TLS handshake have gone to the TLS handler, in order. The others, after those that
  -- were there before, have in their order been accepted by the HTTP server, or are in the queue, or
  -- wait; the queue holds no more than 256, a connection waits only while it is full, and the next
  -- `Accept` returns the first of the queue.
  pub run-in_order :
      (as' : List (Action Conn)) (m : MuxListener Conn)
      → IsServing m
      → NoShutdown as'
      → IsKept as' m (run as' m)
  unfolding run
  run-in_order [] m k n = record {
    http = [];
    sorted = nothing;
    in_order = sym (append-nil (m.http_conns ++ m.waiting));
    none_closed = refl;
    still = k;
    next = λ prefer c cs e. (_, accept_first prefer c cs m e k.listening);
  }
  run-in_order (a ∷ as') m k n =
      let (one, n') = act-Kept a as' m n k in
      let rest = run-in_order as' (act a m).1 one.still n' in
      record {
        http = one.http ++ rest.http;
        sorted = one.sorts as' _ _ rest.sorted;
        in_order =
            append_assoc (act a m).0.accepted (run as' (act a m).1).0.accepted _
            ∙ ap (λ t. (act a m).0.accepted ++ t) rest.in_order
            ∙ sym (append_assoc (act a m).0.accepted _ rest.http)
            ∙ ap (λ t. t ++ rest.http) one.in_order
            ∙ append_assoc (m.http_conns ++ m.waiting) one.http rest.http;
        none_closed = rw (one.none_closed, rest.none_closed) refl;
        still = rest.still;
        next = rest.next;
      }
