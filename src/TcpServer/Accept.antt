-- ===== src/TcpServer/Accept.antt =====
-- `acceptLoop`: what the loop of one listener does with the answers of `Accept`.
use lazyfwd.Base.{
  ◌≡◌, refl, Bool, true, false, ◌||◌, List, [], ◌∷◌, ◌++◌, if◌then◌else◌, Result, ok, err,
  Result-cases, map, All, ap, inl, inr,
}
use lazyfwd.Tunnel.{Error}
use lazyfwd.TcpServer.{ListenerType, route, jump}

-- One answer of `Accept`, a connection or an error, with whether by then the listener has been stopped
-- or the server been cancelled.
pub record Accepted (Conn : Type 0) : Type 0 where
  pub answer : Result Error Conn
  pub stopped : Bool
  pub cancelled : Bool

-- Which handler a connection is given to.
pub data Given (Conn : Type 0) : Type 0 where
  to_route : Conn → Given Conn
  to_jump : Conn → Given Conn

module _ {Conn : Type 0} where
  abbrev pub given : ListenerType → Conn → Given Conn
  given route c = to_route c
  given jump c = to_jump c

  -- The connections handed on, and whether the loop has returned.
  unfoldable pub accept_loop : ListenerType → List (Accepted Conn) → List (Given Conn) × Bool
  accept_loop lt [] = ([], false)
  accept_loop lt (a ∷ as') =
      let (gs, over) = accept_loop lt as' in
      elim a.answer [
        | err e ↦ if a.stopped || a.cancelled then ([], true) else (gs, over)
        | ok c ↦ (given lt c ∷ gs, over)
      ]

  -- An error of `Accept` after the stop or the cancellation.
  abbrev pub ends : Accepted Conn → Bool
  ends a = elim a.answer [ err e ↦ a.stopped || a.cancelled | ok c ↦ false ]

  -- The connections among the answers.
  abbrev pub connections : List (Accepted Conn) → List Conn
  connections [] = []
  connections (a ∷ as') = elim a.answer [ err e ↦ connections as' | ok c ↦ c ∷ connections as' ]

  -- The loop of a listener hands every connection that comes before the first error of `Accept` after
  -- the stop to the handler of the listener's kind, in order and each once, whatever other errors
  -- come between; at that error it returns, and hands on nothing that comes later.
  pub accept_loop-ends :
      (lt : ListenerType) (before : List (Accepted Conn)) (a : Accepted Conn)
      (after : List (Accepted Conn))
      → All (λ b. ends b ≡ false) before
      → ends a ≡ true
      → accept_loop lt (before ++ a ∷ after) ≡ (map (given lt) (connections before), true)
  unfolding accept_loop
  accept_loop-ends lt [] a after h e = elim (Result-cases a.answer) [
    | inl (c, q) ↦ cc (rw q at e)
    | inr (x, q) ↦ rw (q, (rw q at e)) refl
  ]
  accept_loop-ends lt (b ∷ before) a after (go, h) e = elim (Result-cases b.answer) [
    | inl (c, q) ↦ rw q (
        ap (λ (r : List (Given Conn) × Bool). (given lt c ∷ r.0, r.1))
          (accept_loop-ends lt before a after h e))
    | inr (x, q) ↦ rw (q, (rw q at go)) (accept_loop-ends lt before a after h e)
  ]
