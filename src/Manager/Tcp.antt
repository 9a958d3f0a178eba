-- ===== src/Manager/Tcp.antt =====
-- `GetOrCreateTCPTunnel`: what it keeps, and what it returns.
use lazyfwd.Base.{
  ℕ, ◌≡◌, refl, ap, true, Option, none, some, [], arith, length, ◌==◌, Result, ok, err, Bool-cases,
  inl, inr, get_elem?-append_length, get_elem?-set_self,
}
use lazyfwd.Base.Int.{ℤ, int_eq, int_beq_iff}
use lazyfwd.GoMap.{
  lookup, delete, lookup-insert, lookup-delete, lookup-insert_self, lookup-delete_self,
}
use lazyfwd.Config.{TcpRouteConfig, to_k8s_route_config}
use lazyfwd.ClientFactory.{Clients, Connect}
use lazyfwd.Tunnel.{Tunnel, Error, new_tunnel, touch}
use lazyfwd.Manager.{
  Manager, is_live, tunnel_at, put_tunnel, place_at, add_tcp_tunnel, create_tcp_tunnel, reuse_tcp,
  get_or_create_tcp_tunnel, tunnel_id,
}
use lazyfwd.Manager.Wf.{IsWf, Holds-add, Holds-new, Holds-cast, put_tunnel-IsWf}

-- A live tunnel for a given port at a place.
pub record IsTcpServed {Client : Type 0} (m : Manager Client) (port : ℤ) (i : ℕ) : Type 0 where
  pub tunnel : Tunnel Client
  pub mapped : lookup m.tcp_tunnels port ≡ some i
  pub there : tunnel_at m i ≡ some tunnel
  pub live : is_live tunnel.state ≡ true
  pub named : tunnel.hostname ≡ tunnel_id port

-- A result is a live tunnel that the map leads to; with an error the map has no entry.
abbrev pub TcpServed : {Client : Type 0} → ℤ → Result Error ℕ × Manager Client → Type 0
TcpServed port (ok i, m) = IsTcpServed m port i
TcpServed port (err e, m) = lookup m.tcp_tunnels port ≡ none

module _ {Client : Type 0} where
  add_tcp_tunnel-IsWf :
      (now : ℕ) (port : ℤ) (r : TcpRouteConfig) (c : Result Error Client × Clients Client)
      (m : Manager Client)
      → IsWf m
      → IsWf (add_tcp_tunnel now port r c m).1
  unfolding add_tcp_tunnel new_tunnel
  add_tcp_tunnel-IsWf now port r (err e, cl) m w = record {
    tcp_places = λ h i l.
        let k = w.tcp_places h i l in
        record { tunnel = k.tunnel; there = k.there; named = k.named };
    places = λ p i l.
        let k = w.places p i l in record { tunnel = k.tunnel; there = k.there; named = k.named };
  }
  add_tcp_tunnel-IsWf now port r (ok client, cl) m w = record {
    tcp_places = λ h i l. elim (Bool-cases (port == h)) [
      | inl e ↦
          Holds-cast _ (length m.store) i (tunnel_id port) (tunnel_id h)
            (ground (arith, l, lookup-insert m.tcp_tunnels port h (length m.store)))
            (ap tunnel_id ((int_beq_iff port h).0 e)) (Holds-new m _ _ refl)
      | inr e ↦ Holds-add m _ _ i (tunnel_id h) refl (
          w.tcp_places h i (ground (arith, l, lookup-insert m.tcp_tunnels port h (length m.store))))
    ];
    places = λ p i l. Holds-add m _ _ i p refl (w.places p i l);
  }

  create_tcp_tunnel-IsWf :
      (connect : Connect Client) (now : ℕ) (port : ℤ) (o : Option TcpRouteConfig)
      (m : Manager Client)
      → IsWf m
      → IsWf (create_tcp_tunnel connect now port o m).1
  unfolding create_tcp_tunnel
  create_tcp_tunnel-IsWf connect now port none m w = w
  create_tcp_tunnel-IsWf connect now port (some r) m w = add_tcp_tunnel-IsWf now port r _ m w

  delete-IsWf :
      (m : Manager Client) (port : ℤ)
      → IsWf m
      → IsWf (record m { tcp_tunnels = delete m.tcp_tunnels port })
  delete-IsWf m port w = record {
    tcp_places = λ h i l.
        let k = w.tcp_places h i (ground (arith, l, lookup-delete m.tcp_tunnels port h)) in
        record { tunnel = k.tunnel; there = k.there; named = k.named };
    places = λ p i l.
        let k = w.places p i l in record { tunnel = k.tunnel; there = k.there; named = k.named };
  }

  reuse_tcp-IsWf :
      (connect : Connect Client) (now : ℕ) (port : ℤ) (found : Option ℕ)
      (o : Option (Tunnel Client)) (m : Manager Client)
      → place_at m found ≡ o
      → IsWf m
      → IsWf (reuse_tcp connect now port found o m).1
  unfolding reuse_tcp
  reuse_tcp-IsWf connect now port none o m e w = create_tcp_tunnel-IsWf connect now port _ m w
  reuse_tcp-IsWf connect now port (some i) none m e w =
      create_tcp_tunnel-IsWf connect now port _ m w
  reuse_tcp-IsWf connect now port (some i) (some t) m e w = elim (Bool-cases (is_live t.state)) [
    | inl live ↦ rw live (put_tunnel-IsWf m i t (touch now t) e (unfold touch in refl) w)
    | inr dead ↦ rw dead (create_tcp_tunnel-IsWf connect now port _ _ (delete-IsWf m port w))
  ]

  -- `GetOrCreateTCPTunnel` keeps the maps well formed, those of HTTP as those of TCP.
  pub get_or_create_tcp_tunnel-IsWf :
      (connect : Connect Client) (now : ℕ) (port : ℤ) (m : Manager Client)
      → IsWf m
      → IsWf (get_or_create_tcp_tunnel connect now port m).1
  unfolding get_or_create_tcp_tunnel
  get_or_create_tcp_tunnel-IsWf connect now port m w =
      reuse_tcp-IsWf connect now port (lookup m.tcp_tunnels port) _ m refl w

  add_tcp_tunnel-TcpServed :
      (now : ℕ) (port : ℤ) (r : TcpRouteConfig) (c : Result Error Client × Clients Client)
      (m : Manager Client)
      → lookup m.tcp_tunnels port ≡ none
      → TcpServed port (add_tcp_tunnel now port r c m)
  unfolding add_tcp_tunnel
  add_tcp_tunnel-TcpServed now port r (err e, cl) m h = h
  add_tcp_tunnel-TcpServed now port r (ok client, cl) m h = record {
    tunnel = new_tunnel (tunnel_id port) (to_k8s_route_config r) client [] m.config.verbose now;
    mapped = lookup-insert_self m.tcp_tunnels port (length m.store);
    there = get_elem?-append_length m.store _;
    live = unfold new_tunnel in refl;
    named = unfold new_tunnel in refl;
  }

  create_tcp_tunnel-TcpServed :
      (connect : Connect Client) (now : ℕ) (port : ℤ) (o : Option TcpRouteConfig)
      (m : Manager Client)
      → lookup m.tcp_tunnels port ≡ none
      → TcpServed port (create_tcp_tunnel connect now port o m)
  unfolding create_tcp_tunnel
  create_tcp_tunnel-TcpServed connect now port none m h = h
  create_tcp_tunnel-TcpServed connect now port (some r) m h =
      add_tcp_tunnel-TcpServed now port r _ m h

  reuse_tcp-TcpServed :
      (connect : Connect Client) (now : ℕ) (port : ℤ) (found : Option ℕ)
      (o : Option (Tunnel Client)) (m : Manager Client)
      → lookup m.tcp_tunnels port ≡ found
      → place_at m found ≡ o
      → IsWf m
      → TcpServed port (reuse_tcp connect now port found o m)
  unfolding reuse_tcp
  reuse_tcp-TcpServed connect now port none o m l e w =
      create_tcp_tunnel-TcpServed connect now port _ m l
  reuse_tcp-TcpServed connect now port (some i) none m l e w = cc (e, (w.tcp_places port i l).there)
  reuse_tcp-TcpServed connect now port (some i) (some t) m l e w =
      elim (Bool-cases (is_live t.state)) [
        | inr dead ↦ rw dead (
            create_tcp_tunnel-TcpServed connect now port _ _
              (lookup-delete_self m.tcp_tunnels port))
        | inl live ↦ rw live (served live)
      ]
    where
      served : is_live t.state ≡ true → IsTcpServed (put_tunnel m i (touch now t)) port i
      served live =
          let k = w.tcp_places port i l in
          record {
            tunnel = touch now t;
            mapped = unfold put_tunnel in l;
            there = unfold put_tunnel in get_elem?-set_self m.store i t (touch now t) e;
            live = unfold touch in live;
            named = unfold touch in ground (arith, k.there, k.named, e);
          }

  -- In a well-formed manager `GetOrCreateTCPTunnel` returns the place of a live tunnel that carries
  -- the name of the port, to which the map now leads; if it fails, no tunnel is left in the map for
  -- that port.
  pub get_or_create_tcp_tunnel-TcpServed :
      (connect : Connect Client) (now : ℕ) (port : ℤ) (m : Manager Client)
      → IsWf m
      → TcpServed port (get_or_create_tcp_tunnel connect now port m)
  unfolding get_or_create_tcp_tunnel
  get_or_create_tcp_tunnel-TcpServed connect now port m w =
      reuse_tcp-TcpServed connect now port (lookup m.tcp_tunnels port) _ m refl refl w
