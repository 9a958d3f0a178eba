-- ===== src/Handle/Sound.antt =====
-- Managers that are well formed and whose tunnels are settled (internal/tunnelmgr).
use lazyfwd.Base.{
  ℕ, bytes_eq, ◌≡◌, refl, Bool, Option, none, some, [], Bytes, Result, ok, err, Bool-cases, inl,
  inr, All, All-append, All-get, All-set,
}
use lazyfwd.GoMap.{lookup, delete}
use lazyfwd.Base.Int.{ℤ, int_eq}
use lazyfwd.Config.{K8sRouteConfig, TcpRouteConfig, to_k8s_route_config}
use lazyfwd.ClientFactory.{Clients, Connect}
use lazyfwd.Tunnel.{Error, Tunnel, touch, new_tunnel}
use lazyfwd.Tunnel.Laws.{IsSettled}
use lazyfwd.Manager.{
  Manager, is_live, tunnel_at, place_at, put_tunnel, add_tunnel, create_tunnel, reuse,
  get_or_create_tunnel, add_tcp_tunnel, create_tcp_tunnel, reuse_tcp, get_or_create_tcp_tunnel,
  tunnel_id,
}
use lazyfwd.Manager.Wf.{IsWf, put_tunnel-IsWf, get_or_create_tunnel-IsWf}
use lazyfwd.Manager.Tcp.{get_or_create_tcp_tunnel-IsWf}

-- A well-formed manager whose tunnels are settled.
pub record IsSound {Client : Type 0} (m : Manager Client) : Type 0 where
  pub wf : IsWf m
  pub settled : All IsSettled m.store

module _ {Client : Type 0} where
  pub touch-IsSettled : (now : ℕ) (t : Tunnel Client) → IsSettled t → IsSettled (touch now t)
  unfolding touch
  touch-IsSettled now t s = record {
    running_open = s.running_open;
    not_starting = s.not_starting;
    not_stopping = s.not_stopping;
  }

  new_tunnel-IsSettled :
      (h : Bytes) (r : K8sRouteConfig) (c : Client) (l : Bytes) (v : Bool) (now : ℕ)
      → IsSettled (new_tunnel h r c l v now)
  unfolding new_tunnel
  new_tunnel-IsSettled h r c l v now = record {
    running_open = λ e. cc (e);
    not_starting = cc;
    not_stopping = cc;
  }

  pub put_tunnel-IsSound :
      (m : Manager Client) (i : ℕ) (t u : Tunnel Client)
      → tunnel_at m i ≡ some t
      → u.hostname ≡ t.hostname
      → IsSettled u
      → IsSound m
      → IsSound (put_tunnel m i u)
  put_tunnel-IsSound m i t u e n s w = record {
    wf = put_tunnel-IsWf m i t u e n w.wf;
    settled = unfold put_tunnel in All-set IsSettled m.store i u s w.settled;
  }

  -- What `GetOrCreateTunnel` does to the store.
  add_tunnel-IsSettled :
      (now : ℕ) (h : Bytes) (r : K8sRouteConfig) (c : Result Error Client × Clients Client)
      (m : Manager Client)
      → All IsSettled m.store
      → All IsSettled (add_tunnel now h r c m).1.store
  unfolding add_tunnel
  add_tunnel-IsSettled now h r (err e, cl) m s = s
  add_tunnel-IsSettled now h r (ok c, cl) m s =
      All-append IsSettled m.store _ s
        (new_tunnel-IsSettled h r c m.config.http.listen_addr m.config.verbose now, tt)

  create_tunnel-IsSettled :
      (connect : Connect Client) (now : ℕ) (h : Bytes) (o : Option K8sRouteConfig)
      (m : Manager Client)
      → All IsSettled m.store
      → All IsSettled (create_tunnel connect now h o m).1.store
  unfolding create_tunnel
  create_tunnel-IsSettled connect now h none m s = s
  create_tunnel-IsSettled connect now h (some r) m s = add_tunnel-IsSettled now h r _ m s

  reuse-IsSettled :
      (connect : Connect Client) (now : ℕ) (h scheme : Bytes) (found : Option ℕ)
      (o : Option (Tunnel Client)) (m : Manager Client)
      → place_at m found ≡ o
      → All IsSettled m.store
      → All IsSettled (reuse connect now h scheme found o m).1.store
  unfolding reuse
  reuse-IsSettled connect now h scheme none o m e s = create_tunnel-IsSettled connect now h _ m s
  reuse-IsSettled connect now h scheme (some i) none m e s =
      create_tunnel-IsSettled connect now h _ m s
  reuse-IsSettled connect now h scheme (some i) (some t) m e s =
      elim (Bool-cases (is_live t.state)) [
        | inl live ↦ rw live (
            unfold put_tunnel in
            All-set IsSettled m.store i (touch now t)
              (touch-IsSettled now t (All-get IsSettled m.store i t e s)) s)
        | inr dead ↦
            rw dead (
              create_tunnel-IsSettled connect now h _ (record m { tunnels = delete m.tunnels h }) s)
      ]

  pub get_or_create_tunnel-IsSound :
      (connect : Connect Client) (now : ℕ) (h scheme : Bytes) (m : Manager Client)
      → IsSound m
      → IsSound (get_or_create_tunnel connect now h scheme m).1
  get_or_create_tunnel-IsSound connect now h scheme m w = record {
    wf = get_or_create_tunnel-IsWf connect now h scheme m w.wf;
    settled =
        unfold get_or_create_tunnel in
        reuse-IsSettled connect now h scheme (lookup m.tunnels h) _ m refl w.settled;
  }

  -- What `GetOrCreateTCPTunnel` does to the store.
  add_tcp_tunnel-IsSettled :
      (now : ℕ) (h : ℤ) (r : TcpRouteConfig) (c : Result Error Client × Clients Client)
      (m : Manager Client)
      → All IsSettled m.store
      → All IsSettled (add_tcp_tunnel now h r c m).1.store
  unfolding add_tcp_tunnel
  add_tcp_tunnel-IsSettled now h r (err e, cl) m s = s
  add_tcp_tunnel-IsSettled now h r (ok c, cl) m s =
      All-append IsSettled m.store _ s
        (new_tunnel-IsSettled (tunnel_id h) (to_k8s_route_config r) c [] m.config.verbose now, tt)

  create_tcp_tunnel-IsSettled :
      (connect : Connect Client) (now : ℕ) (h : ℤ) (o : Option TcpRouteConfig) (m : Manager Client)
      → All IsSettled m.store
      → All IsSettled (create_tcp_tunnel connect now h o m).1.store
  unfolding create_tcp_tunnel
  create_tcp_tunnel-IsSettled connect now h none m s = s
  create_tcp_tunnel-IsSettled connect now h (some r) m s = add_tcp_tunnel-IsSettled now h r _ m s

  reuse_tcp-IsSettled :
      (connect : Connect Client) (now : ℕ) (h : ℤ) (found : Option ℕ) (o : Option (Tunnel Client))
      (m : Manager Client)
      → place_at m found ≡ o
      → All IsSettled m.store
      → All IsSettled (reuse_tcp connect now h found o m).1.store
  unfolding reuse_tcp
  reuse_tcp-IsSettled connect now h none o m e s = create_tcp_tunnel-IsSettled connect now h _ m s
  reuse_tcp-IsSettled connect now h (some i) none m e s =
      create_tcp_tunnel-IsSettled connect now h _ m s
  reuse_tcp-IsSettled connect now h (some i) (some t) m e s = elim (Bool-cases (is_live t.state)) [
    | inl live ↦ rw live (
        unfold put_tunnel in
        All-set IsSettled m.store i (touch now t)
          (touch-IsSettled now t (All-get IsSettled m.store i t e s)) s)
    | inr dead ↦ rw dead (
        create_tcp_tunnel-IsSettled connect now h _
          (record m { tcp_tunnels = delete m.tcp_tunnels h }) s)
  ]

  pub get_or_create_tcp_tunnel-IsSound :
      (connect : Connect Client) (now : ℕ) (h : ℤ) (m : Manager Client)
      → IsSound m
      → IsSound (get_or_create_tcp_tunnel connect now h m).1
  get_or_create_tcp_tunnel-IsSound connect now h m w = record {
    wf = get_or_create_tcp_tunnel-IsWf connect now h m w.wf;
    settled =
        unfold get_or_create_tcp_tunnel in
        reuse_tcp-IsSettled connect now h (lookup m.tcp_tunnels h) _ m refl w.settled;
  }
