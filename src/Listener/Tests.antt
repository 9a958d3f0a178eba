-- ===== src/Listener/Tests.antt =====
-- A TLS connection and two others, of which one is accepted, and a shutdown.
use lazyfwd.Base.{ℕ, zero, suc, ◌≡◌, refl, true, false, List, [], ◌∷◌, arith, ok}
use lazyfwd.Listener.{
  MuxListener, is_tls, enqueue, handle_connection, refill, accept, close_server, close_mux,
}
use lazyfwd.Listener.Actions.{
  Action, arrives, accepts, closes_server, closes_mux, act, run, IsServing, IsKept,
}
use lazyfwd.Listener.Order.{run-in_order}

abbrev empty_queue : MuxListener ℕ
empty_queue = record { http_conns = []; waiting = []; server_done = false; done = false }

empty_queue-IsServing : IsServing empty_queue
empty_queue-IsServing = record {
  serving = refl;
  listening = refl;
  bounded = omega arith;
  full = λ n. absurd (n refl);
}

abbrev actions : List (Action ℕ)
actions =
    arrives true (ok 0x16) 1
    ∷ arrives true (ok b'G') 2
    ∷ arrives true (ok b'P') 3
    ∷ accepts true
    ∷ []

run-in_order_example : IsKept actions empty_queue (run actions empty_queue)
run-in_order_example = run-in_order actions empty_queue empty_queue-IsServing tt

accepted_first : (run actions empty_queue).0.accepted ≡ 2 ∷ []
unfolding run act handle_connection is_tls enqueue accept refill
accepted_first = refl

-- As many connections as a number says
unfoldable same : ℕ → List ℕ
same zero = []
same (suc n) = n ∷ same n

-- A queue that is full
abbrev full_queue : MuxListener ℕ
full_queue = record empty_queue { http_conns = same 256 }

abbrev crowded : List (Action ℕ)
crowded = arrives true (ok b'G') 7 ∷ arrives true (ok b'P') 8 ∷ accepts true ∷ []

-- The first of those that wait has entered the queue.
one_waits : (run crowded full_queue).1.waiting ≡ 8 ∷ []
unfolding run act handle_connection is_tls enqueue accept refill same
one_waits = refl

-- The one that still waits is closed with the server.
closed_with_server :
    (run (closes_server ∷ closes_mux ∷ []) (run crowded full_queue).1).0.closed ≡ 8 ∷ []
unfolding run act handle_connection is_tls enqueue accept refill same close_server close_mux
closed_with_server = refl
