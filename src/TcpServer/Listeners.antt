-- ===== src/TcpServer/Listeners.antt =====
-- The bound ports against the map of listeners, through the start and the shutdown.
use lazyfwd.Base.{
  ◌≡◌, refl, sym, ◌∙◌, subst, true, Option, none, some, List, [], ◌∷◌, ◌++◌, All, All-map,
  All-append_left, All-append_right, beq_self, ok, err, Option-cases, inl, inr,
}
use lazyfwd.Base.Int.{ℤ, int_eq}
use lazyfwd.GoMap.{
  GoMap, keys, lookup, insert, lookup-insert_self, lookup-insert_ne, insert-missing,
}
use lazyfwd.Config.{TcpK8sConfig}
use lazyfwd.Config.Validate.Ports.{Distinct-split, crossed, All-always}
use lazyfwd.Config.Validate.Spec.{Lacks, Distinct}
use lazyfwd.Tunnel.{Error, open_chan}
use lazyfwd.TcpServer.{
  ListenerType, route, jump, PortListener, Server, new_server, listened, start_listener, unbind,
  close_all, closed_server, shutdown, Starting, after_shutdown, after_listen, start_all, started,
  start,
}

abbrev pub IsOpen : ℤ × PortListener → Type 0
IsOpen e = (e.1.port ≡ e.0) × (e.1.stop_chan ≡ open_chan)

-- The bound ports are those of the map, and each has a listener that is open.
pub record IsListening (s : Server) : Type 0 where
  pub bound_mapped : s.bound ≡ keys s.listeners
  pub all_open : All IsOpen s.listeners

close_all-bound : (ls : GoMap ℤ PortListener) → All IsOpen ls → close_all ls (keys ls) ≡ some []
unfolding close_all unbind
close_all-bound [] h = refl
close_all-bound ((port, pl) ∷ ls) ((same, not_closed), h) =
    rw (not_closed, same, beq_self port) (close_all-bound ls h)

abbrev pub stopped : Server → Server
stopped s = record s { listeners = []; bound = []; cancelled = true }

-- The shutdown of a server does not close a channel twice, and leaves no port bound and no
-- listener.
pub shutdown-stopped : (s : Server) → IsListening s → shutdown s ≡ some (stopped s)
unfolding shutdown closed_server
shutdown-stopped s i =
    rw (i.bound_mapped, close_all-bound s.listeners i.all_open, closed_server) refl

abbrev pub listener : ListenerType → ℤ → PortListener
listener lt port = record { port = port; listener_type = lt; stop_chan = open_chan }

abbrev pub with_listener : ListenerType → ℤ → Server → Server
with_listener lt p s = record s {
  listeners = insert s.listeners p (listener lt p);
  bound = p ∷ s.bound;
}

add-IsListening :
    (lt : ListenerType) (p : ℤ) (s : Server)
    → lookup s.listeners p ≡ none
    → IsListening s
    → IsListening (with_listener lt p s)
add-IsListening lt p s new i =
    let e = insert-missing s.listeners p (listener lt p) new in
    record {
      bound_mapped = rw (e, i.bound_mapped) refl;
      all_open = subst (λ m. All IsOpen m) (sym e) ((refl, refl), i.all_open);
    }

-- A start that fails leaves nothing bound.
abbrev pub Ended : Server → Type 0
Ended s = (s.listeners ≡ []) × (s.bound ≡ []) × (s.cancelled ≡ true)

-- What one loop of a start does to the server.
pub record Extends (lt : ListenerType) (ps : List ℤ) (s s' : Server) : Type 0 where
  pub listening : IsListening s'
  pub same_config : s'.k8s ≡ s.k8s
  pub added : All (λ p. lookup s'.listeners p ≡ some (listener lt p)) ps
  pub others : (p : ℤ) → Lacks p ps → lookup s'.listeners p ≡ lookup s.listeners p

still_free :
    (k : ℤ) (pl : PortListener) (m : GoMap ℤ PortListener) (ps : List ℤ)
    → Lacks k ps
    → All (λ p. lookup m p ≡ none) ps
    → All (λ p. lookup (insert m k pl) p ≡ none) ps
still_free k pl m [] l f = tt
still_free k pl m (p ∷ ps) (ne, l) (none_yet, f) =
    (lookup-insert_ne m k p pl (λ q. ne (sym q)) ∙ none_yet, still_free k pl m ps l f)

Extends-first :
    (lt : ListenerType) (k : ℤ) (ps : List ℤ) (s s' : Server)
    → Lacks k ps
    → Extends lt ps (with_listener lt k s) s'
    → Extends lt (k ∷ ps) s s'
Extends-first lt k ps s s' l x = record {
  listening = x.listening;
  same_config = x.same_config;
  added = (x.others k l ∙ lookup-insert_self s.listeners k (listener lt k), x.added);
  others = λ p h. x.others p h.1 ∙ lookup-insert_ne s.listeners k p (listener lt k) h.0;
}

module _ (Q : Starting → Type 0) (listen : ℤ → Option Error)
    (failed : (e : Error) (s : Server) → Ended s → Q (some (err e, s))) where
  start_all-by :
      (lt : ListenerType) (next : Server → Starting) (ps : List ℤ) (s : Server)
      → Distinct ps
      → All (λ p. lookup s.listeners p ≡ none) ps
      → IsListening s
      → ((s' : Server) → Extends lt ps s s' → Q (next s'))
      → Q (start_all listen lt ps next s)
  unfolding start_all listened start_listener
  start_all-by lt next [] s d f i done =
      done s (record { listening = i; same_config = refl; added = tt; others = λ p l. refl })
  start_all-by lt next (k ∷ ps) s (l, d) (none_yet, f) i done = elim (Option-cases (listen k)) [
    | inl q ↦
        rw (q, listened, after_listen)
          (start_all-by lt next ps (with_listener lt k s) d
            (still_free k (listener lt k) s.listeners ps l f) (add-IsListening lt k s none_yet i)
            (λ s' x. done s' (Extends-first lt k ps s s' l x)))
    | inr (e, q) ↦
        rw (q, listened, after_listen, shutdown-stopped s i, after_shutdown)
          (failed _ (stopped s) (refl, refl, refl))
  ]

-- A server that listens exactly on the ports of its configuration, each with a listener of its kind; or
-- one that has given up and listens on none.
abbrev pub Listens : TcpK8sConfig → Starting → Type 0
Listens k8s none = ⊥
Listens k8s (some (err e, s)) = Ended s
Listens k8s (some (ok u, s)) =
    IsListening s
    × All (λ p. lookup s.listeners p ≡ some (listener route p)) (keys k8s.routes)
    × All (λ p. lookup s.listeners p ≡ some (listener jump p)) (keys k8s.jump)
    × ((p : ℤ) → Lacks p (keys k8s.routes ++ keys k8s.jump) → lookup s.listeners p ≡ none)

All-both :
    {P Q R : ℤ → Type 0}
    → ((p : ℤ) → P p → Q p → R p)
    → (ps : List ℤ) → All P ps
    → All Q ps
    → All R ps
All-both f [] a b = tt
All-both f (p ∷ ps) a b = (f p a.0 b.0, All-both f ps a.1 b.1)

-- A start of a new server whose local ports are all different ends without a panic. If it succeeds done
-- the server listens on every port of the routes and of the jump routes, with a listener of the
-- right kind, and on no other one; if a port cannot be bound then no port stays bound.
pub start-Listens :
    (listen : ℤ → Option Error) (k8s : TcpK8sConfig)
    → Distinct (keys k8s.routes ++ keys k8s.jump)
    → Listens k8s (start listen (new_server k8s))
unfolding start new_server lookup
start-Listens listen k8s d =
    let (dr, dj, apart) = Distinct-split (keys k8s.routes) (keys k8s.jump) d in
    start_all-by (Listens k8s) listen (λ e s h. h) route _ (keys k8s.routes) (new_server k8s) dr
      (All-always (λ p. refl) (keys k8s.routes)) (record { bound_mapped = refl; all_open = tt })
      (λ s1 x1.
        start_all-by (Listens k8s) listen (λ e s h. h) jump started (keys k8s.jump) s1 dj
          (All-map _ _ (keys k8s.jump) (λ p l. x1.others p l)
            (crossed (keys k8s.routes) (keys k8s.jump) apart))
          x1.listening
          (λ s2 x2. (
            x2.listening,
            All-both (λ p l e. x2.others p l ∙ e) (keys k8s.routes) apart x1.added,
            x2.added,
            (λ p l.
                x2.others p (All-append_right _ (keys k8s.routes) (keys k8s.jump) l)
                ∙ (x1.others p (All-append_left _ (keys k8s.routes) (keys k8s.jump) l))),
          )))
