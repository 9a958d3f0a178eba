-- ===== src/Manager/Sharing.antt =====
-- Several requests for one hostname.
use lazyfwd.Base.{
  ℕ, ◌≡◌, ◌≢◌, refl, sym, subst, ap, ◌∙◌, some_injective, true, some, List, [], ◌∷◌, Bytes,
  bytes_eq, bytes_beq_iff, ◌==◌, Result, ok, err, Bool-cases, inl, inr, get_elem?-set_self,
  get_elem?-set_ne,
}
use lazyfwd.GoMap.{lookup}
use lazyfwd.ClientFactory.{Connect}
use lazyfwd.Tunnel.{Tunnel, Error, touch}
use lazyfwd.Manager.{Manager, tunnel_at, put_tunnel, is_live, reuse, get_or_create_tunnel}
use lazyfwd.Manager.Wf.{IsWf, get_or_create_tunnel-IsWf}
use lazyfwd.Manager.Lookup.{
  IsServed, Served, get_or_create_tunnel-Served, get_or_create_tunnel-Frame,
}

-- A request for a hostname, with how connections go at its time.
pub record Request (Client : Type 0) : Type 0 where
  pub connect : Connect Client
  pub now : ℕ
  pub hostname : Bytes
  pub scheme : Bytes

-- What a request for a tunnel that is there leaves: the place is returned, no tunnel or client is
-- made, and nothing changes but the time of the tunnel's last access.
pub record IsShared {Client : Type 0} (now i : ℕ) (m : Manager Client)
    (r : Result Error ℕ × Manager Client) : Type 0 where
  pub returned : r.0 ≡ ok i
  pub tunnels_same : r.1.tunnels ≡ m.tunnels
  pub tcp_same : r.1.tcp_tunnels ≡ m.tcp_tunnels
  pub clients_same : r.1.clients ≡ m.clients
  pub config_same : r.1.config ≡ m.config
  pub rest_kept : (j : ℕ) → i ≢ j → tunnel_at r.1 j ≡ tunnel_at m j
  pub before : Tunnel Client
  pub after : Tunnel Client
  pub was_there : tunnel_at m i ≡ some before
  pub is_there : tunnel_at r.1 i ≡ some after
  pub accessed : after.last_access ≡ now
  pub else_same : record after { last_access = before.last_access } ≡ before

module _ {Client : Type 0} where
  -- Requests one after another.
  unfoldable pub requests : List (Request Client) → Manager Client → Manager Client
  requests [] m = m
  requests (q ∷ later) m =
      requests later (get_or_create_tunnel q.connect q.now q.hostname q.scheme m).1

  reuse_live :
      (connect : Connect Client) (now : ℕ) (hostname scheme : Bytes) (m : Manager Client) (i : ℕ)
      (t : Tunnel Client)
      → is_live t.state ≡ true
      → reuse connect now hostname scheme (some i) (some t) m ≡ (ok i, put_tunnel m i (touch now t))
  unfolding reuse
  reuse_live connect now hostname scheme m i t live = rw live refl

  served_touch :
      (connect : Connect Client) (now : ℕ) (hostname scheme : Bytes) (m : Manager Client) (i : ℕ)
      (k : IsServed m hostname i)
      → get_or_create_tunnel connect now hostname scheme m
        ≡ (ok i, put_tunnel m i (touch now k.tunnel))
  unfolding get_or_create_tunnel
  served_touch connect now hostname scheme m i k =
      rw (k.mapped, k.there) (reuse_live connect now hostname scheme m i k.tunnel k.live)

  served-IsShared :
      (connect : Connect Client) (now : ℕ) (hostname scheme : Bytes) (m : Manager Client) (i : ℕ)
      → IsServed m hostname i
      → IsShared now i m (get_or_create_tunnel connect now hostname scheme m)
  unfolding put_tunnel touch
  served-IsShared connect now hostname scheme m i k =
      subst (IsShared now i m) (sym (served_touch connect now hostname scheme m i k)) (record {
        returned = refl;
        tunnels_same = refl;
        tcp_same = refl;
        clients_same = refl;
        config_same = refl;
        rest_kept = λ j ne. get_elem?-set_ne m.store i j (touch now k.tunnel) ne;
        before = k.tunnel;
        after = touch now k.tunnel;
        was_there = k.there;
        is_there = get_elem?-set_self m.store i k.tunnel (touch now k.tunnel) k.there;
        accessed = refl;
        else_same = refl;
      })

  IsServed-place :
      (hostname : Bytes) (r : Result Error ℕ × Manager Client) (i : ℕ)
      → r.0 ≡ ok i
      → Served hostname r
      → IsServed r.1 hostname i
  IsServed-place hostname (err e, m) i h s = cc (h)
  IsServed-place hostname (ok j, m) i h s =
      let same : j ≡ i = cc (h) in subst (λ n. IsServed m hostname n) same s

  -- One place does not serve two hostnames.
  places_differ :
      (hostname other : Bytes) (m : Manager Client) (i : ℕ)
      → IsWf m
      → other ≢ hostname
      → lookup m.tunnels hostname ≡ some i
      → IsServed m other i
      → ⊥
  places_differ hostname other m i w ne mapped s =
      let held = w.places hostname i mapped in
      let same : held.tunnel ≡ s.tunnel = some_injective (sym held.there ∙ s.there) in
      ne (sym s.named ∙ ap (λ t. t.hostname) (sym same) ∙ held.named)

  request-IsServed :
      (q : Request Client) (hostname : Bytes) (m : Manager Client) (i : ℕ)
      → IsWf m
      → IsServed m hostname i
      → IsServed (get_or_create_tunnel q.connect q.now q.hostname q.scheme m).1 hostname i
  request-IsServed q hostname m i w k = elim (Bool-cases (q.hostname == hostname)) [
    | inl same ↦ for_this ((bytes_beq_iff q.hostname hostname).0 same)
    | inr differ ↦ for_other (λ same. cc (differ, (bytes_beq_iff q.hostname hostname).1 same))
  ]
    where
      served : Served q.hostname (get_or_create_tunnel q.connect q.now q.hostname q.scheme m)
      served = get_or_create_tunnel-Served q.connect q.now q.hostname q.scheme m w

      for_this :
          q.hostname ≡ hostname
          → IsServed (get_or_create_tunnel q.connect q.now q.hostname q.scheme m).1 hostname i
      for_this same =
          let shared =
            served-IsShared q.connect q.now q.hostname q.scheme m i
              (subst (λ h. IsServed m h i) (sym same) k) in
          subst (λ h. IsServed (get_or_create_tunnel q.connect q.now q.hostname q.scheme m).1 h i)
            same (IsServed-place q.hostname _ i shared.returned served)

      for_other :
          q.hostname ≢ hostname
          → IsServed (get_or_create_tunnel q.connect q.now q.hostname q.scheme m).1 hostname i
      for_other ne =
          let f = get_or_create_tunnel-Frame q.connect q.now q.hostname q.scheme m in
          let mapped = f.others hostname ne ∙ k.mapped in
          record {
            tunnel = k.tunnel;
            mapped = mapped;
            there = f.store_kept i k.tunnel k.there (λ returned.
                places_differ hostname q.hostname _ i
                  (get_or_create_tunnel-IsWf q.connect q.now q.hostname q.scheme m w) ne mapped
                  (IsServed-place q.hostname _ i returned served));
            live = k.live;
            named = k.named;
          }

  requests-IsServed :
      (later : List (Request Client)) (hostname : Bytes) (m : Manager Client) (i : ℕ)
      → IsWf m
      → IsServed m hostname i
      → IsServed (requests later m) hostname i
  unfolding requests
  requests-IsServed [] hostname m i w k = k
  requests-IsServed (q ∷ later) hostname m i w k =
      requests-IsServed later hostname _ i
        (get_or_create_tunnel-IsWf q.connect q.now q.hostname q.scheme m w)
        (request-IsServed q hostname m i w k)

  -- A tunnel is shared: once a request for a hostname has returned a place, then after any further
  -- requests, for this and for other hostnames, whether they failed or not, a request for that hostname
  -- returns the same place. It makes no tunnel and no client, and changes nothing but the time of the
  -- tunnel's last access, which is now that of the request.
  pub get_or_create_tunnel-IsShared :
      (connect connect' : Connect Client) (now now' : ℕ) (hostname scheme scheme' : Bytes)
      (m : Manager Client) (i : ℕ) (later : List (Request Client))
      → IsWf m
      → (get_or_create_tunnel connect now hostname scheme m).0 ≡ ok i
      → let m' = requests later (get_or_create_tunnel connect now hostname scheme m).1 in
        IsShared now' i m' (get_or_create_tunnel connect' now' hostname scheme' m')
  get_or_create_tunnel-IsShared connect connect' now now' hostname scheme scheme' m i later w h =
      served-IsShared connect' now' hostname scheme' _ i (
        requests-IsServed later hostname _ i
          (get_or_create_tunnel-IsWf connect now hostname scheme m w)
          (IsServed-place hostname _ i h
            (get_or_create_tunnel-Served connect now hostname scheme m w)))
