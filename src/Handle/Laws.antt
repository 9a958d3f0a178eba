-- ===== src/Handle/Laws.antt =====
-- The operations of a handler on a tunnel of a sound manager.
use lazyfwd.Base.{
  ℕ, bytes_eq, ◌≡◌, ◌≢◌, refl, sym, some_injective, true, Option, none, some, arith, Bytes, Result,
  ok, err, Bool-cases, Option-cases, inl, inr, All-get, get_elem?-set_self,
}
use lazyfwd.GoMap.{lookup}
use lazyfwd.ClientFactory.{Connect}
use lazyfwd.Tunnel.{
  Error, Tunnel, running, failed, is_running, start, touch, mark_failed, close_stop,
}
use lazyfwd.Tunnel.Laws.{IsSettled, Started, Ended, start-Started, mark_failed-Ended}
use lazyfwd.Tunnel.Names.{KeepsName, start-KeepsName, mark_failed-name}
use lazyfwd.Manager.{Manager, tunnel_at, put_tunnel, get_or_create_tunnel}
use lazyfwd.Handle.{
  Weather, put_back, ensured, ensure_running, touched, touch_at, failed_at, put_failed,
  mark_failed_at,
}
use lazyfwd.Manager.Lookup.{get_or_create_tunnel-Served}
use lazyfwd.Handle.Sound.{
  IsSound, touch-IsSettled, put_tunnel-IsSound, get_or_create_tunnel-IsSound,
}

module _ {Client : Type 0} where
  -- A handle that leads to a tunnel of the store.
  abbrev pub IsHandle : Manager Client → ℕ → Type 0
  IsHandle m i = (t : Tunnel Client) × (tunnel_at m i ≡ some t)

  -- The maps lead to the same places.
  abbrev pub SameMaps : Manager Client → Manager Client → Type 0
  SameMaps m m' = (m'.tunnels ≡ m.tunnels) × (m'.tcp_tunnels ≡ m.tcp_tunnels)

  put-SameMaps : (m : Manager Client) (i : ℕ) (t : Tunnel Client) → SameMaps m (put_tunnel m i t)
  unfolding put_tunnel
  put-SameMaps m i t = (refl, refl)

  -- The start behind a handle: no panic, a sound manager, the same maps, and a tunnel that runs
  -- exactly on success.
  abbrev pub Ensured :
      Manager Client → ℕ → Option (Result Error (Unit {0}) × Manager Client) → Type 0
  Ensured m i none = ⊥
  Ensured m i (some (ok u, m')) =
      IsSound m'
      × SameMaps m m'
      × ((t : Tunnel Client) × (tunnel_at m' i ≡ some t) × (t.state ≡ running))
  Ensured m i (some (err e, m')) =
      IsSound m'
      × SameMaps m m'
      × ((t : Tunnel Client) × (tunnel_at m' i ≡ some t) × (t.state ≢ running))

  put_back-Ensured :
      (m : Manager Client) (i : ℕ) (t : Tunnel Client)
      (r : Option (Result Error (Unit {0}) × Tunnel Client))
      → tunnel_at m i ≡ some t
      → Started r
      → KeepsName t r
      → IsSound m
      → Ensured m i (put_back i m r)
  unfolding put_back
  put_back-Ensured m i t none e s k w = s
  put_back-Ensured m i t (some (ok u, t')) e s k w = (
    put_tunnel-IsSound m i t t' e k s.0 w,
    put-SameMaps m i t',
    (t', (unfold put_tunnel in get_elem?-set_self m.store i t t' e), s.1),
  )
  put_back-Ensured m i t (some (err x, t')) e s k w = (
    put_tunnel-IsSound m i t t' e k s.0 w,
    put-SameMaps m i t',
    (t', (unfold put_tunnel in get_elem?-set_self m.store i t t' e), s.1),
  )

  pub ensure_running-Ensured :
      (c : Weather Client) (i : ℕ) (m : Manager Client)
      → IsHandle m i
      → IsSound m
      → Ensured m i (ensure_running c i m)
  unfolding ensure_running ensured
  ensure_running-Ensured c i m (t, e) w = elim (Bool-cases (is_running t)) [
    | inl run ↦ rw (e, run, ensured) (w, (refl, refl), (t, e, is_running-state t run))
    | inr still ↦
        let s = All-get IsSettled m.store i t e w.settled in
        rw (e, still, ensured)
          (put_back-Ensured m i t (start c.joined c.attempt t) e
            (start-Started c.joined c.attempt t s) (start-KeepsName c.joined c.attempt t s) w)
  ]
    where
      is_running-state : (t : Tunnel Client) → is_running t ≡ true → t.state ≡ running
      is_running-state t h = unfold is_running in ground arith

  pub touch_at-IsSound :
      (now i : ℕ) (m : Manager Client) (t : Tunnel Client)
      → tunnel_at m i ≡ some t
      → IsSound m
      → (m' : Manager Client) × (touch_at now i m ≡ some m')
        × IsSound m'
        × SameMaps m m'
        × ((u : Tunnel Client) × (tunnel_at m' i ≡ some u) × (u.state ≡ t.state))
  unfolding touch_at touched
  touch_at-IsSound now i m t e w = (
    put_tunnel m i (touch now t),
    rw (e, touched) refl,
    put_tunnel-IsSound m i t (touch now t) e (unfold touch in refl)
        (touch-IsSettled now t (All-get IsSettled m.store i t e w.settled)) w,
    put-SameMaps m i (touch now t),
    (
      touch now t,
      (unfold put_tunnel in get_elem?-set_self m.store i t (touch now t) e),
      (unfold touch in refl),
    ),
  )

  -- What `MarkFailed` does to a running tunnel.
  pub mark_failed_at-failed :
      (e : Error) (i : ℕ) (m m' : Manager Client) (t : Tunnel Client)
      → tunnel_at m i ≡ some t
      → t.state ≡ running
      → mark_failed_at e i m ≡ some m'
      → (u : Tunnel Client) × (m' ≡ put_tunnel m i u) × (u.state ≡ failed)
  unfolding mark_failed_at failed_at put_failed
  mark_failed_at-failed e i m m' t there run q = elim (Option-cases (mark_failed e t)) [
    | inl gone ↦ cc (rw (there, gone, failed_at, put_failed) at q)
    | inr (u, f) ↦ (u, sym (some_injective (rw (there, f, failed_at, put_failed) at q)), state u f)
  ]
    where
      state : (u : Tunnel Client) → mark_failed e t ≡ some u → u.state ≡ failed
      state u f = unfold mark_failed close_stop in ground arith

  pub mark_failed_at-IsSound :
      (x : Error) (i : ℕ) (m : Manager Client)
      → IsHandle m i
      → IsSound m
      → (m' : Manager Client) × (mark_failed_at x i m ≡ some m')
        × IsSound m'
        × SameMaps m m'
        × IsHandle m' i
  unfolding mark_failed_at failed_at put_failed
  mark_failed_at-IsSound x i m (t, e) w =
      let s = All-get IsSettled m.store i t e w.settled in
      let (u, q, settled) = ended (mark_failed x t) (mark_failed-Ended x t s) in
      (
        put_tunnel m i u,
        rw (e, q, failed_at, put_failed) refl,
        put_tunnel-IsSound m i t u e (mark_failed-name x t u q) settled w,
        put-SameMaps m i u,
        (u, (unfold put_tunnel in get_elem?-set_self m.store i t u e)),
      )
    where
      ended :
          (o : Option (Tunnel Client)) → Ended o → (u : Tunnel Client) × (o ≡ some u) × IsSettled u
      ended none h = absurd h
      ended (some u) h = (u, refl, h.0)

  -- What the manager returns can be used.
  pub handed_out :
      (connect : Connect Client) (now : ℕ) (host scheme : Bytes) (m : Manager Client) (i : ℕ)
      (m' : Manager Client)
      → IsSound m
      → get_or_create_tunnel connect now host scheme m ≡ (ok i, m')
      → IsSound m' × (lookup m'.tunnels host ≡ some i) × IsHandle m' i
  handed_out connect now host scheme m i m' s e =
      let k = rw e at (get_or_create_tunnel-Served connect now host scheme m s.wf) in
      (
        rw e at (get_or_create_tunnel-IsSound connect now host scheme m s),
        k.mapped,
        (k.tunnel, k.there),
      )
