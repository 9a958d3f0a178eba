-- ===== src/HttpHandler/Retry.antt =====
-- internal/httpserver/http_handler.go: the tunnel of the second try.
use lazyfwd.Base.{
  ℕ, ◌≡◌, ◌≢◌, refl, subst, false, Option, none, some, arith, Bytes, bytes_eq, codes, length, set,
  Result, ok, err, get_elem?-lt, get_elem?-set_self, length-set,
}
use lazyfwd.GoMap.{lookup, delete}
use lazyfwd.Config.{K8sRouteConfig}
use lazyfwd.ClientFactory.{Clients, Connect}
use lazyfwd.Tunnel.{Error, Tunnel, running, failed}
use lazyfwd.Manager.{
  Manager, tunnel_at, put_tunnel, get_or_create_tunnel, is_live, reuse, create_tunnel, add_tunnel,
  resolve_route,
}
use lazyfwd.Handle.{Weather, mark_failed_at}
use lazyfwd.Handle.Laws.{mark_failed_at-failed}
use lazyfwd.HttpHandler.{
  Reply, served, bad_gateway, Tried, start_failed, proxied, last_reply, second_try, retry,
}

-- A reply that came through a tunnel came through another one than that at `i`.
abbrev pub ThroughOther : {Client : Type 0} → ℕ → Option (Reply × Manager Client) → Type 0
ThroughOther i (some (served j, m)) = j ≢ i
ThroughOther i _ = Unit

module _ {Client : Type 0} where
  add_tunnel-new :
      (now : ℕ) (h : Bytes) (r : K8sRouteConfig) (c : Result Error Client × Clients Client)
      (m m' : Manager Client) (j : ℕ)
      → add_tunnel now h r c m ≡ (ok j, m')
      → j ≡ length m.store
  unfolding add_tunnel
  add_tunnel-new now h r (err e, cl) m m' j q = cc (q)
  add_tunnel-new now h r (ok c, cl) m m' j q = cc (q)

  create_tunnel-new :
      (connect : Connect Client) (now : ℕ) (h : Bytes) (o : Option K8sRouteConfig)
      (m m' : Manager Client) (j : ℕ)
      → create_tunnel connect now h o m ≡ (ok j, m')
      → j ≡ length m.store
  unfolding create_tunnel
  create_tunnel-new connect now h none m m' j q = cc (q)
  create_tunnel-new connect now h (some r) m m' j q = add_tunnel-new now h r _ m m' j q

  -- A tunnel that is stopping or has failed is not handed out: if there is a tunnel for its hostname
  -- then it is a new one, at a place that no handle has led to.
  pub get_or_create_tunnel-new :
      (connect : Connect Client) (now : ℕ) (h scheme : Bytes) (m m' : Manager Client) (i j : ℕ)
      (t : Tunnel Client)
      → lookup m.tunnels h ≡ some i
      → tunnel_at m i ≡ some t
      → is_live t.state ≡ false
      → get_or_create_tunnel connect now h scheme m ≡ (ok j, m')
      → j ≡ length m.store
  unfolding get_or_create_tunnel
  get_or_create_tunnel-new connect now h scheme m m' i j t l there dead q =
      create_tunnel-new connect now h (resolve_route m.config h scheme)
        (record m { tunnels = delete m.tunnels h }) m' j
        (unfold reuse in (rw (l, there, dead, reuse) at q))

  last_reply-same :
      (host : Bytes) (i j : ℕ) (r : Option (Tried × Manager Client)) (m : Manager Client)
      → last_reply host i r ≡ some (served j, m)
      → j ≡ i
  unfolding last_reply
  last_reply-same host i j none m q = cc (q)
  last_reply-same host i j (some (start_failed e, m')) m q = cc (q)
  last_reply-same host i j (some (proxied none, m')) m q = cc (q)
  last_reply-same host i j (some (proxied (some e), m')) m q = cc (q)

  retry-elsewhere :
      (connect : Connect Client) (w : Weather Client) (reported : Option Error) (host : Bytes)
      (first : Error) (m m' : Manager Client) (i j : ℕ) (t : Tunnel Client)
      → lookup m.tunnels host ≡ some i
      → tunnel_at m i ≡ some t
      → t.state ≡ running
      → retry connect w reported host first (mark_failed_at first i m) ≡ some (served j, m')
      → j ≢ i
  unfolding retry second_try
  retry-elsewhere connect w reported host first m m' i j t l there run q =
      marked (mark_failed_at first i m) refl q
    where
      from :
          (u : Tunnel Client)
          → u.state ≡ failed
          → (r : Result Error ℕ × Manager Client)
          → get_or_create_tunnel connect w.now host (codes "http") (put_tunnel m i u) ≡ r
          → second_try w reported host first r ≡ some (served j, m')
          → j ≢ i
      from u dead (err e, m1) g s = cc (s)
      from u dead (ok k, m1) g s =
          let new =
            get_or_create_tunnel-new connect w.now host (codes "http") (put_tunnel m i u) m1 i k u
              (unfold put_tunnel in l) (unfold put_tunnel in get_elem?-set_self m.store i t u there)
              (rw dead refl) g in
          let same = last_reply-same host k j _ m' (unfold second_try in s) in
          let new' : k ≡ length (set m.store i u) = unfold put_tunnel in new in
          λ e. omega (arith, e, same, new', length-set m.store i u, get_elem?-lt m.store i t there)

      marked :
          (o : Option (Manager Client))
          → mark_failed_at first i m ≡ o
          → retry connect w reported host first o ≡ some (served j, m')
          → j ≢ i
      marked none p s = cc (s)
      marked (some m1) p s =
          let (u, put, dead) = mark_failed_at-failed first i m m1 t there run p in
          from u dead (get_or_create_tunnel connect w.now host (codes "http") (put_tunnel m i u))
            refl
            (subst
              (λ x.
                second_try w reported host first
                  (get_or_create_tunnel connect w.now host (codes "http") x)
                ≡ some (served j, m'))
              put s)

  -- After the tunnel of a request has failed in the first try, a reply of the second try comes
  -- through another tunnel.
  pub retry-ne :
      (connect : Connect Client) (w : Weather Client) (reported : Option Error) (host : Bytes)
      (first : Error) (m : Manager Client) (i : ℕ) (t : Tunnel Client)
      → lookup m.tunnels host ≡ some i
      → tunnel_at m i ≡ some t
      → t.state ≡ running
      → ThroughOther i (retry connect w reported host first (mark_failed_at first i m))
  retry-ne connect w reported host first m i t l there run = from _ refl
    where
      from :
          (r : Option (Reply × Manager Client))
          → retry connect w reported host first (mark_failed_at first i m) ≡ r
          → ThroughOther i r
      from none q = tt
      from (some (bad_gateway text, m')) q = tt
      from (some (served j, m')) q =
          retry-elsewhere connect w reported host first m m' i j t l there run q
