-- ===== src/Manager/Lookup.antt =====
-- What `GetOrCreateTunnel` returns.
use lazyfwd.Base.{
  ℕ, ◌≡◌, ◌≢◌, refl, ap, ◌∙◌, true, Option, none, some, arith, Bytes, bytes_eq, bytes_beq_iff,
  length, Result, ok, err, Bool-cases, inl, inr, get_elem?-append_length, get_elem?-set_self,
  get_elem?-set_ne, get_elem?-append_left,
}
use lazyfwd.GoMap.{
  lookup, delete, lookup-insert, lookup-delete, lookup-insert_self, lookup-delete_self,
}
use lazyfwd.Config.{K8sRouteConfig}
use lazyfwd.ClientFactory.{Clients, Connect}
use lazyfwd.Tunnel.{Tunnel, Error, new_tunnel, touch}
use lazyfwd.Manager.{
  Manager, is_live, tunnel_at, put_tunnel, place_at, resolve_route, add_tunnel, create_tunnel,
  reuse, get_or_create_tunnel,
}
use lazyfwd.Manager.Wf.{IsWf}

-- A live tunnel of a given name at a place.
pub record IsServed {Client : Type 0} (m : Manager Client) (hostname : Bytes) (i : ℕ) : Type 0 where
  pub tunnel : Tunnel Client
  pub mapped : lookup m.tunnels hostname ≡ some i
  pub there : tunnel_at m i ≡ some tunnel
  pub live : is_live tunnel.state ≡ true
  pub named : tunnel.hostname ≡ hostname

-- A result is a live tunnel that the map leads to; with an error the map has no entry.
abbrev pub Served : {Client : Type 0} → Bytes → Result Error ℕ × Manager Client → Type 0
Served hostname (ok i, m) = IsServed m hostname i
Served hostname (err e, m) = lookup m.tunnels hostname ≡ none

module _ {Client : Type 0} where
  add_tunnel-Served :
      (now : ℕ) (hostname : Bytes) (r : K8sRouteConfig) (c : Result Error Client × Clients Client)
      (m : Manager Client)
      → lookup m.tunnels hostname ≡ none
      → Served hostname (add_tunnel now hostname r c m)
  unfolding add_tunnel
  add_tunnel-Served now hostname r (err e, cl) m h = h
  add_tunnel-Served now hostname r (ok client, cl) m h = record {
    tunnel = new_tunnel hostname r client m.config.http.listen_addr m.config.verbose now;
    mapped = lookup-insert_self m.tunnels hostname (length m.store);
    there = get_elem?-append_length m.store _;
    live = unfold new_tunnel in refl;
    named = unfold new_tunnel in refl;
  }

  create_tunnel-Served :
      (connect : Connect Client) (now : ℕ) (hostname : Bytes) (o : Option K8sRouteConfig)
      (m : Manager Client)
      → lookup m.tunnels hostname ≡ none
      → Served hostname (create_tunnel connect now hostname o m)
  unfolding create_tunnel
  create_tunnel-Served connect now hostname none m h = h
  create_tunnel-Served connect now hostname (some r) m h = add_tunnel-Served now hostname r _ m h

  reuse-Served :
      (connect : Connect Client) (now : ℕ) (hostname scheme : Bytes) (found : Option ℕ)
      (o : Option (Tunnel Client)) (m : Manager Client)
      → lookup m.tunnels hostname ≡ found
      → place_at m found ≡ o
      → IsWf m
      → Served hostname (reuse connect now hostname scheme found o m)
  unfolding reuse
  reuse-Served connect now hostname scheme none o m l e w =
      create_tunnel-Served connect now hostname _ m l
  reuse-Served connect now hostname scheme (some i) none m l e w =
      cc (e, (w.places hostname i l).there)
  reuse-Served connect now hostname scheme (some i) (some t) m l e w =
      elim (Bool-cases (is_live t.state)) [
        | inr dead ↦
            rw dead (
              create_tunnel-Served connect now hostname _ _ (lookup-delete_self m.tunnels hostname))
        | inl live ↦ rw live (served live)
      ]
    where
      served : is_live t.state ≡ true → IsServed (put_tunnel m i (touch now t)) hostname i
      served live =
          let k = w.places hostname i l in
          record {
            tunnel = touch now t;
            mapped = unfold put_tunnel in l;
            there = unfold put_tunnel in get_elem?-set_self m.store i t (touch now t) e;
            live = unfold touch in live;
            named = unfold touch in ground (arith, k.there, k.named, e);
          }

  -- In a well-formed manager `GetOrCreateTunnel` returns the place of a live tunnel of the requested
  -- name, to which the map now leads; if it fails, no tunnel is left in the map under that name.
  pub get_or_create_tunnel-Served :
      (connect : Connect Client) (now : ℕ) (hostname scheme : Bytes) (m : Manager Client)
      → IsWf m
      → Served hostname (get_or_create_tunnel connect now hostname scheme m)
  unfolding get_or_create_tunnel
  get_or_create_tunnel-Served connect now hostname scheme m w =
      reuse-Served connect now hostname scheme (lookup m.tunnels hostname) _ m refl refl w

  -- What a step leaves alone: the entries of other hostnames, the TCP entries, the configuration,
  -- and each tunnel in the store that is not the one returned.
  pub record Frame (hostname : Bytes) (m : Manager Client) (r : Result Error ℕ × Manager Client)
      : Type 0 where
    pub others : (h : Bytes) → hostname ≢ h → lookup r.1.tunnels h ≡ lookup m.tunnels h
    pub tcp_same : r.1.tcp_tunnels ≡ m.tcp_tunnels
    pub config_same : r.1.config ≡ m.config
    pub store_kept :
        (j : ℕ) (u : Tunnel Client) → tunnel_at m j ≡ some u → r.0 ≢ ok j → tunnel_at r.1 j ≡ some u

  add_tunnel-Frame :
      (now : ℕ) (hostname : Bytes) (r : K8sRouteConfig) (c : Result Error Client × Clients Client)
      (m : Manager Client)
      → Frame hostname m (add_tunnel now hostname r c m)
  unfolding add_tunnel
  add_tunnel-Frame now hostname r (err e, cl) m = record {
    others = λ h n. refl;
    tcp_same = refl;
    config_same = refl;
    store_kept = λ j u e n. e;
  }
  add_tunnel-Frame now hostname r (ok client, cl) m = record {
    others = λ h n.
        ground
          (arith, n, lookup-insert m.tunnels hostname h (length m.store), bytes_beq_iff hostname h);
    tcp_same = refl;
    config_same = refl;
    store_kept = λ j u e n. get_elem?-append_left m.store _ j u e;
  }

  create_tunnel-Frame :
      (connect : Connect Client) (now : ℕ) (hostname : Bytes) (o : Option K8sRouteConfig)
      (m : Manager Client)
      → Frame hostname m (create_tunnel connect now hostname o m)
  unfolding create_tunnel
  create_tunnel-Frame connect now hostname none m = record {
    others = λ h n. refl;
    tcp_same = refl;
    config_same = refl;
    store_kept = λ j u e n. e;
  }
  create_tunnel-Frame connect now hostname (some r) m = add_tunnel-Frame now hostname r _ m

  reuse-Frame :
      (connect : Connect Client) (now : ℕ) (hostname scheme : Bytes) (found : Option ℕ)
      (o : Option (Tunnel Client)) (m : Manager Client)
      → Frame hostname m (reuse connect now hostname scheme found o m)
  unfolding reuse
  reuse-Frame connect now hostname scheme none o m = create_tunnel-Frame connect now hostname _ m
  reuse-Frame connect now hostname scheme (some i) none m =
      create_tunnel-Frame connect now hostname _ m
  reuse-Frame connect now hostname scheme (some i) (some t) m =
      elim (Bool-cases (is_live t.state)) [ inl live ↦ rw live kept | inr dead ↦ rw dead dropped ]
    where
      kept : Frame hostname m (ok i, put_tunnel m i (touch now t))
      kept =
          unfold put_tunnel in
          record {
            others = λ h n. refl;
            tcp_same = refl;
            config_same = refl;
            store_kept =
                λ j u e n. get_elem?-set_ne m.store i j (touch now t) (λ q. n (ap ok q)) ∙ e;
          }

      m' : Manager Client
      m' = record m { tunnels = delete m.tunnels hostname }

      dropped :
          Frame hostname m
            (create_tunnel connect now hostname (resolve_route m.config hostname scheme) m')
      dropped =
          let f =
            create_tunnel-Frame connect now hostname (resolve_route m.config hostname scheme) m' in
          record {
            others = λ h n.
                f.others h n
                ∙ ground (arith, n, lookup-delete m.tunnels hostname h, bytes_beq_iff hostname h);
            tcp_same = f.tcp_same;
            config_same = f.config_same;
            store_kept = f.store_kept;
          }

  -- `GetOrCreateTunnel` for one hostname changes nothing of the others.
  pub get_or_create_tunnel-Frame :
      (connect : Connect Client) (now : ℕ) (hostname scheme : Bytes) (m : Manager Client)
      → Frame hostname m (get_or_create_tunnel connect now hostname scheme m)
  unfolding get_or_create_tunnel
  get_or_create_tunnel-Frame connect now hostname scheme m =
      reuse-Frame connect now hostname scheme (lookup m.tunnels hostname) _ m
