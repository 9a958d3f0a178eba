-- ===== src/TcpHandler/Laws.antt =====
-- What a connection to a local TCP port leaves behind.
use lazyfwd.Base.{
  get_elem?-set_self, some_injective, sym, ◌≢◌, ℕ, ◌≡◌, refl, ap, ◌∙◌, Option, none, some, bytes_eq,
  Result, ok, err,
}
use lazyfwd.Base.Int.{ℤ, int_eq}
use lazyfwd.GoMap.{lookup}
use lazyfwd.ClientFactory.{Connect}
use lazyfwd.Tunnel.{Error, Tunnel, running}
use lazyfwd.Manager.{Manager, tunnel_at, put_tunnel, get_or_create_tcp_tunnel}
use lazyfwd.Manager.Tcp.{get_or_create_tcp_tunnel-TcpServed}
use lazyfwd.Handle.{Weather}
use lazyfwd.Handle.Sound.{IsSound, get_or_create_tcp_tunnel-IsSound}
use lazyfwd.Handle.Laws.{
  Ensured, ensure_running-Ensured, touch_at-IsSound, mark_failed_at-IsSound, mark_failed_at-failed,
}
use lazyfwd.TlsHandler.{dial_failed}
use lazyfwd.TcpHandler.{
  TcpReply, refused, piped, with_reply, after_dial, after_start, with_tunnel, handle_connection,
}

-- No tunnel to which the map leads for the port runs.
abbrev pub NoneRuns : {Client : Type 0} → ℤ → Manager Client → Type 0
NoneRuns {Client} port m =
    (i : ℕ) (t : Tunnel Client)
    → lookup m.tcp_tunnels port ≡ some i
    → tunnel_at m i ≡ some t
    → t.state ≢ running

-- A connection ends without a panic, in a sound manager; one that goes through a tunnel goes through
-- that of its port, which runs, and one that is refused leaves none that runs.
abbrev pub Piped : {Client : Type 0} → ℤ → Option (TcpReply × Manager Client) → Type 0
Piped port none = ⊥
Piped port (some (refused, m)) = IsSound m × NoneRuns port m
Piped {Client} port (some (piped i, m)) =
    IsSound m
    × (lookup m.tcp_tunnels port ≡ some i)
    × ((t : Tunnel Client) × (tunnel_at m i ≡ some t) × (t.state ≡ running))

module _ {Client : Type 0} where
  only :
      (port : ℤ) (m : Manager Client) (i : ℕ) (t : Tunnel Client)
      → lookup m.tcp_tunnels port ≡ some i
      → tunnel_at m i ≡ some t
      → t.state ≢ running
      → NoneRuns port m
  only port m i t l there stopped j u l' there' run =
      let same : j ≡ i = some_injective (sym l' ∙ l) in
      let equal : u ≡ t = some_injective (sym there' ∙ ap (λ k. tunnel_at m k) same ∙ there) in
      stopped (ap (λ (x : Tunnel Client). x.state) (sym equal) ∙ run)

  after_dial-Piped :
      (later i : ℕ) (dial : Option Error) (port : ℤ) (m : Manager Client) (t : Tunnel Client)
      → lookup m.tcp_tunnels port ≡ some i
      → tunnel_at m i ≡ some t
      → t.state ≡ running
      → IsSound m
      → Piped port (after_dial later i dial m)
  unfolding after_dial with_reply
  after_dial-Piped later i (some e) port m t l there run w =
      let (m', q, w', same, h) = mark_failed_at-IsSound (dial_failed e) i m (t, there) w in
      let (u, put, dead) = mark_failed_at-failed (dial_failed e) i m m' t there run q in
      rw q (
        w',
        only port m' i u (ap (λ t. lookup t port) same.1 ∙ l)
            (ap (λ x. tunnel_at x i) put
              ∙ (unfold put_tunnel in get_elem?-set_self m.store i t u there))
            (λ r. cc (dead, r)),
      )
  after_dial-Piped later i none port m t l there run w =
      let (m', q, w', same, (u, there', kept)) = touch_at-IsSound later i m t there w in
      rw q (w', ap (λ t. lookup t port) same.1 ∙ l, (u, there', kept ∙ run))

  after_start-Piped :
      (later i : ℕ) (dial : Option Error) (port : ℤ) (m : Manager Client)
      (r : Option (Result Error (Unit {0}) × Manager Client))
      → lookup m.tcp_tunnels port ≡ some i
      → Ensured m i r
      → Piped port (after_start later i dial r)
  unfolding after_start
  after_start-Piped later i dial port m none l e = e
  after_start-Piped later i dial port m (some (err x, m')) l (w, same, (t, there, stopped)) =
      (w, only port m' i t (ap (λ t. lookup t port) same.1 ∙ l) there stopped)
  after_start-Piped later i dial port m (some (ok x, m')) l (w, same, (t, there, run)) =
      after_dial-Piped later i dial port m' t (ap (λ t. lookup t port) same.1 ∙ l) there run w

  -- A connection to a local port, with a sound manager, is handled without a panic and leaves a sound
  -- manager, whatever the API server, the forwarder and the backend answer; if its bytes are copied,
  -- then they go through the tunnel to which the map of ports leads for its port, and this tunnel
  -- runs; if it is refused, then the map does not lead to a running tunnel for its port.
  pub handle_connection-Piped :
      (connect : Connect Client) (w : Weather Client) (dial : Option Error) (port : ℤ)
      (m : Manager Client)
      → IsSound m
      → Piped port (handle_connection connect w dial port m)
  unfolding handle_connection
  handle_connection-Piped connect w dial port m s =
      from (get_or_create_tcp_tunnel connect w.now port m) refl
    where
      from :
          (q : Result Error ℕ × Manager Client)
          → get_or_create_tcp_tunnel connect w.now port m ≡ q
          → Piped port (with_tunnel w dial q)
      from (err e, m') q =
          let none_there = rw q at (get_or_create_tcp_tunnel-TcpServed connect w.now port m s.wf) in
          unfold with_tunnel in
          (
            (rw q at (get_or_create_tcp_tunnel-IsSound connect w.now port m s)),
            (λ i t l there run. cc (none_there, l)),
          )
      from (ok i, m') q =
          let k = rw q at (get_or_create_tcp_tunnel-TcpServed connect w.now port m s.wf) in
          let s' = rw q at (get_or_create_tcp_tunnel-IsSound connect w.now port m s) in
          unfold with_tunnel in
          after_start-Piped w.later i dial port m' _ k.mapped
            (ensure_running-Ensured w i m' (k.tunnel, k.there) s')
