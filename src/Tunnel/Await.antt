-- ===== src/Tunnel/Await.antt =====
-- `awaitReady` of internal/tunnel/tunnel.go: a caller that finds a start under way looks at the tunnel
-- at every tick. `none` where the ticks do not suffice.
use lazyfwd.Base.{◌≡◌, refl, Option, none, some, List, [], ◌∷◌, ◌++◌, All, err}
use lazyfwd.Tunnel.{
  Error, State, idle, starting, running, stopping, failed, Tunnel, ended, set_failed,
  wait_for_ready,
}

-- One round: the end of the context, or the state and the last error that are read at a tick.
pub data Tick : Type 0 where
  ctx_done : Error → Tick
  seen : State → Option Error → Tick

-- `awaitReady`; the first argument is what a start of its own returns, and `some none` is a nil error.
unfoldable pub await_ready : Option Error → List Tick → Option (Option Error)
await_ready restart [] = none
await_ready restart (ctx_done e ∷ ts) = some (some e)
await_ready restart (seen running e ∷ ts) = some none
await_ready restart (seen failed e ∷ ts) = some e
await_ready restart (seen idle e ∷ ts) = some restart
await_ready restart (seen starting e ∷ ts) = await_ready restart ts
await_ready restart (seen stopping e ∷ ts) = await_ready restart ts

abbrev pub IsWaiting : Tick → Type 0
IsWaiting (ctx_done e) = ⊥
IsWaiting (seen s e) = s ≡ starting

waits :
    (restart : Option Error) (before ts : List Tick)
    → All IsWaiting before
    → await_ready restart (before ++ ts) ≡ await_ready restart ts
unfolding await_ready
waits restart [] ts h = refl
waits restart (ctx_done e ∷ before) ts h = absurd h.0
waits restart (seen starting e ∷ before) ts h = waits restart before ts h.1
waits restart (seen idle e ∷ before) ts h = cc (h.0)
waits restart (seen running e ∷ before) ts h = cc (h.0)
waits restart (seen stopping e ∷ before) ts h = cc (h.0)
waits restart (seen failed e ∷ before) ts h = cc (h.0)

-- When a forwarder ends without an error while a start waits for it, the caller that started the tunnel
-- gets an error; a caller that waits for this start gets none, as if it had succeeded, though the
-- tunnel has failed.
pub await_ready-disagrees :
    {Client : Type 0} (t : Tunnel Client) (restart : Option Error) (before after : List Tick)
    → All IsWaiting before
    → (e : Error) × (u : Tunnel Client) × (wait_for_ready (ended none) t ≡ some (err e, u))
      × (u.state ≡ failed)
      × (await_ready restart (before ++ seen u.state u.last_error ∷ after) ≡ some none)
unfolding wait_for_ready set_failed await_ready
await_ready-disagrees t restart before after h =
    (_, set_failed none t, refl, refl, waits restart before _ h)
