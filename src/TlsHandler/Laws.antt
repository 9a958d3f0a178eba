-- ===== src/TlsHandler/Laws.antt =====
-- What a TLS connection leaves behind.
use lazyfwd.Base.{
  ℕ, ◌≡◌, refl, ap, ◌∙◌, true, Option, none, some, Bytes, bytes_eq, codes, Result, ok, err,
  Option-cases, inl, inr, get_elem?-set_self,
}
use lazyfwd.GoMap.{lookup}
use lazyfwd.ClientFactory.{Connect}
use lazyfwd.Tunnel.{Error, Tunnel, running, failed}
use lazyfwd.Manager.{Manager, tunnel_at, put_tunnel, get_or_create_tunnel}
use lazyfwd.Handle.{Weather}
use lazyfwd.Handle.Sound.{IsSound, get_or_create_tunnel-IsSound}
use lazyfwd.Handle.Laws.{
  IsHandle, Ensured, ensure_running-Ensured, handed_out, touch_at-IsSound, mark_failed_at-IsSound,
  mark_failed_at-failed,
}
use lazyfwd.Sni.{SniError, panic, out_of_fuel, extract_sni}
use lazyfwd.Sni.Safe.{is_proper, extract_sni-proper}
use lazyfwd.TlsErrorPage.{TlsErrorType, backend_connection}
use lazyfwd.TlsHandler.{
  Sockets, TlsReply, closed, page, passed, sni_text, after_dial, after_touch, after_start,
  with_tunnel, unread, with_name, dial_failed, handle_tls_connection,
}

-- What a page says of the manager: where the backend did not answer, the tunnel of the name has
-- failed.
abbrev pub PageLeft : {Client : Type 0} → TlsErrorType → Bytes → Manager Client → Type 0
PageLeft {Client} backend_connection sni m =
    (i : ℕ) × (t : Tunnel Client) × (lookup m.tunnels sni ≡ some i)
    × (tunnel_at m i ≡ some t)
    × (t.state ≡ failed)
PageLeft _ sni m = Unit

-- A connection that is passed through leads to the tunnel of the name in its ClientHello, and the
-- backend gets all bytes that were read.
abbrev pub Passed : {Client : Type 0} → Sockets → Option (TlsReply × Manager Client) → Type 0
Passed s none = ⊥
Passed s (some (closed, m)) = IsSound m
Passed s (some (page type host text, m)) = IsSound m × PageLeft type host m
Passed s (some (passed i hello, m)) =
    IsSound m
    × IsHandle m i
    × (s.first_read ≡ ok hello)
    × ((sni : Bytes) × (extract_sni hello ≡ ok sni) × (lookup m.tunnels sni ≡ some i))

module _ {Client : Type 0} where
  after_dial-Passed :
      (s : Sockets) (hello sni : Bytes) (i : ℕ) (o : Option Error) (m : Manager Client)
      (t : Tunnel Client)
      → s.first_read ≡ ok hello
      → extract_sni hello ≡ ok sni
      → lookup m.tunnels sni ≡ some i
      → tunnel_at m i ≡ some t
      → t.state ≡ running
      → IsSound m
      → Passed s (after_dial s hello sni i o m)
  unfolding after_dial
  after_dial-Passed s hello sni i (some e) m t r n l there run w =
      let (m', q, w', same, h) = mark_failed_at-IsSound (dial_failed e) i m (t, there) w in
      let (u, put, dead) = mark_failed_at-failed (dial_failed e) i m m' t there run q in
      rw q (
        w',
        (
          i,
          u,
          ap (λ t. lookup t sni) same.0 ∙ l,
          ap (λ x. tunnel_at x i) put
              ∙ (unfold put_tunnel in get_elem?-set_self m.store i t u there),
          dead,
        ),
      )
  after_dial-Passed s hello sni i none m t r n l there run w = elim (Option-cases s.written) [
    | inl e ↦ rw e (w, (t, there), r, (sni, n, l))
    | inr (x, e) ↦ rw e (w, tt)
  ]

  after_start-Passed :
      (later : ℕ) (s : Sockets) (hello sni : Bytes) (i : ℕ) (m : Manager Client)
      (r : Option (Result Error (Unit {0}) × Manager Client))
      → s.first_read ≡ ok hello
      → extract_sni hello ≡ ok sni
      → lookup m.tunnels sni ≡ some i
      → Ensured m i r
      → Passed s (after_start later s hello sni i r)
  unfolding after_start after_touch
  after_start-Passed later s hello sni i m none q n l e = e
  after_start-Passed later s hello sni i m (some (err x, m')) q n l e = (e.0, tt)
  after_start-Passed later s hello sni i m (some (ok x, m')) q n l (w, same, (t, there, run)) =
      let (m'', touched, w', same', (u, there', kept)) = touch_at-IsSound later i m' t there w in
      rw (touched, after_touch)
        (after_dial-Passed s hello sni i s.dial m'' u q n
          (ap (λ t. lookup t sni) (same'.0 ∙ same.0) ∙ l) there' (kept ∙ run) w')

  unread-Passed :
      (s : Sockets) (e : SniError) (m : Manager Client)
      → (let r : Result SniError Bytes = err e in is_proper r ≡ true)
      → IsSound m
      → Passed s (unread (sni_text e) m)
  unfolding unread sni_text
  unread-Passed s panic m p w = cc (p)
  unread-Passed s out_of_fuel m p w = cc (p)
  unread-Passed s _ m p w = (w, tt)

  -- A TLS connection to a sound manager ends without a panic and leaves a sound manager, whatever the
  -- sockets, the API server and the forwarder answer. If it is passed through, then its ClientHello
  -- has a name, it goes through the tunnel to which the map leads for this name, and the backend
  -- gets first all bytes that were read from the client. If it ends because the backend did not
  -- answer, then the map leads for its name to a tunnel that has failed.
  pub handle_tls_connection-Passed :
      (connect : Connect Client) (w : Weather Client) (s : Sockets) (m : Manager Client)
      → IsSound m
      → Passed s (handle_tls_connection connect w s m)
  unfolding handle_tls_connection
  handle_tls_connection-Passed connect w s m k = from s.first_read refl
    where
      tunnelled :
          (hello sni : Bytes) (q : Result Error ℕ × Manager Client)
          → s.first_read ≡ ok hello
          → extract_sni hello ≡ ok sni
          → get_or_create_tunnel connect w.now sni (codes "https") m ≡ q
          → Passed s (with_tunnel w s hello sni q)
      tunnelled hello sni (err e, m') r n q =
          unfold with_tunnel in
          ((rw q at (get_or_create_tunnel-IsSound connect w.now sni (codes "https") m k)), tt)
      tunnelled hello sni (ok i, m') r n q =
          let (k', l, h) = handed_out connect w.now sni (codes "https") m i m' k q in
          unfold with_tunnel in
          after_start-Passed w.later s hello sni i m' _ r n l (ensure_running-Ensured w i m' h k')

      named :
          (hello : Bytes) (n : Result SniError Bytes)
          → s.first_read ≡ ok hello
          → extract_sni hello ≡ n
          → Passed s (with_name connect w s hello n m)
      named hello (err e) r n =
          unfold with_name in unread-Passed s e m (rw n at (extract_sni-proper hello)) k
      named hello (ok sni) r n = unfold with_name in tunnelled hello sni _ r n refl

      from :
          (r : Result Error Bytes)
          → s.first_read ≡ r
          → Passed s (elim r [
            | err e ↦ some (closed, m)
            | ok hello ↦ with_name connect w s hello (extract_sni hello) m
          ])
      from (err e) q = k
      from (ok hello) q = named hello _ q refl
