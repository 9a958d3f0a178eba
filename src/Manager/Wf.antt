-- ===== src/Manager/Wf.antt =====
-- What holds of a manager between two operations, and that they keep it.
use lazyfwd.Base.{
  ℕ, ◌≡◌, refl, subst, ◌∙◌, Option, none, some, [], ◌∷◌, ◌++◌, arith, Bytes, bytes_eq,
  bytes_beq_iff, length, get_elem?, set, ◌==◌, Result, ok, err, Bool-cases, inl, inr,
  get_elem?-append_length, get_elem?-append_left, get_elem?-set_self, get_elem?-set_ne, nat_beq,
}
use lazyfwd.Base.Int.{ℤ, int_eq}
use lazyfwd.GoMap.{lookup, delete, lookup-insert, lookup-delete}
use lazyfwd.Config.{Config, K8sRouteConfig}
use lazyfwd.ClientFactory.{Clients, Connect}
use lazyfwd.Tunnel.{Tunnel, Error, new_tunnel, touch}
use lazyfwd.Manager.{
  Manager, is_live, new_manager, tunnel_at, put_tunnel, place_at, add_tunnel, create_tunnel, reuse,
  get_or_create_tunnel, tunnel_id,
}

-- At a place stands a tunnel of a given name.
pub record Holds {Client : Type 0} (m : Manager Client) (i : ℕ) (name : Bytes) : Type 0 where
  pub tunnel : Tunnel Client
  pub there : tunnel_at m i ≡ some tunnel
  pub named : tunnel.hostname ≡ name

-- Each map leads to tunnels of the right name.
pub record IsWf {Client : Type 0} (m : Manager Client) : Type 0 where
  pub places : (h : Bytes) (i : ℕ) → lookup m.tunnels h ≡ some i → Holds m i h
  pub tcp_places : (p : ℤ) (i : ℕ) → lookup m.tcp_tunnels p ≡ some i → Holds m i (tunnel_id p)

module _ {Client : Type 0} where
  pub new_manager-IsWf : (c : Config) → IsWf (new_manager {Client = Client} c)
  unfolding new_manager lookup
  new_manager-IsWf c = record { places = λ h i e. cc; tcp_places = λ p i e. cc }

  -- A tunnel that is put in place of one of the same name.
  Holds-put :
      (m : Manager Client) (i j : ℕ) (t u : Tunnel Client) (name : Bytes)
      → tunnel_at m i ≡ some t
      → u.hostname ≡ t.hostname
      → Holds m j name
      → Holds (put_tunnel m i u) j name
  unfolding put_tunnel
  Holds-put m i j t u name e same h = elim (Bool-cases (nat_beq i j)) [
    | inl eq ↦
        let k : i ≡ j = ground arith in
        record {
          tunnel = u;
          there =
              subst (λ n. get_elem? (set m.store i u) n ≡ some u) k
                (get_elem?-set_self m.store i t u e);
          named = same ∙ ground (arith, h.there, e, k, h.named);
        }
    | inr ne ↦ record {
      tunnel = h.tunnel;
      there = get_elem?-set_ne m.store i j u (ground arith) ∙ h.there;
      named = h.named;
    }
  ]

  pub put_tunnel-IsWf :
      (m : Manager Client) (i : ℕ) (t u : Tunnel Client)
      → tunnel_at m i ≡ some t
      → u.hostname ≡ t.hostname
      → IsWf m
      → IsWf (put_tunnel m i u)
  put_tunnel-IsWf m i t u e same w = record {
    places = λ h j l. Holds-put m i j t u h e same (w.places h j (unfold put_tunnel in l));
    tcp_places = λ p j l.
        Holds-put m i j t u (tunnel_id p) e same (w.tcp_places p j (unfold put_tunnel in l));
  }

  pub Holds-add :
      (m m' : Manager Client) (t : Tunnel Client) (i : ℕ) (name : Bytes)
      → m'.store ≡ m.store ++ t ∷ []
      → Holds m i name
      → Holds m' i name
  Holds-add m m' t i name e h = record {
    tunnel = h.tunnel;
    there = rw e (get_elem?-append_left m.store (t ∷ []) i h.tunnel h.there);
    named = h.named;
  }

  pub Holds-new :
      (m m' : Manager Client) (t : Tunnel Client)
      → m'.store ≡ m.store ++ t ∷ []
      → Holds m' (length m.store) t.hostname
  Holds-new m m' t e = record {
    tunnel = t;
    there = rw e (get_elem?-append_length m.store t);
    named = refl;
  }

  pub Holds-cast :
      (m : Manager Client) (i j : ℕ) (a b : Bytes) → i ≡ j → a ≡ b → Holds m i a → Holds m j b
  Holds-cast m i j a b p q h = record {
    tunnel = h.tunnel;
    there = subst (λ n. get_elem? m.store n ≡ some h.tunnel) p h.there;
    named = h.named ∙ q;
  }

  pub add_tunnel-IsWf :
      (now : ℕ) (hostname : Bytes) (r : K8sRouteConfig) (c : Result Error Client × Clients Client)
      (m : Manager Client)
      → IsWf m
      → IsWf (add_tunnel now hostname r c m).1
  unfolding add_tunnel new_tunnel
  add_tunnel-IsWf now hostname r (err e, cl) m w = record {
    places = λ h i l.
        let k = w.places h i l in record { tunnel = k.tunnel; there = k.there; named = k.named };
    tcp_places = λ p i l.
        let k = w.tcp_places p i l in
        record { tunnel = k.tunnel; there = k.there; named = k.named };
  }
  add_tunnel-IsWf now hostname r (ok client, cl) m w = record {
    places = λ h i l. elim (Bool-cases (hostname == h)) [
      | inl e ↦
          Holds-cast _ (length m.store) i hostname h
            (ground (arith, l, lookup-insert m.tunnels hostname h (length m.store)))
            ((bytes_beq_iff hostname h).0 e) (Holds-new m _ _ refl)
      | inr e ↦
          Holds-add m _ _ i h refl
            (w.places h i (ground (arith, l, lookup-insert m.tunnels hostname h (length m.store))))
    ];
    tcp_places = λ p i l. Holds-add m _ _ i (tunnel_id p) refl (w.tcp_places p i l);
  }

  pub create_tunnel-IsWf :
      (connect : Connect Client) (now : ℕ) (hostname : Bytes) (o : Option K8sRouteConfig)
      (m : Manager Client)
      → IsWf m
      → IsWf (create_tunnel connect now hostname o m).1
  unfolding create_tunnel
  create_tunnel-IsWf connect now hostname none m w = w
  create_tunnel-IsWf connect now hostname (some r) m w = add_tunnel-IsWf now hostname r _ m w

  delete-IsWf :
      (m : Manager Client) (hostname : Bytes)
      → IsWf m
      → IsWf (record m { tunnels = delete m.tunnels hostname })
  delete-IsWf m hostname w = record {
    places = λ h i l.
        let k = w.places h i (ground (arith, l, lookup-delete m.tunnels hostname h)) in
        record { tunnel = k.tunnel; there = k.there; named = k.named };
    tcp_places = λ p i l.
        let k = w.tcp_places p i l in
        record { tunnel = k.tunnel; there = k.there; named = k.named };
  }

  reuse-IsWf :
      (connect : Connect Client) (now : ℕ) (hostname scheme : Bytes) (found : Option ℕ)
      (o : Option (Tunnel Client)) (m : Manager Client)
      → place_at m found ≡ o
      → IsWf m
      → IsWf (reuse connect now hostname scheme found o m).1
  unfolding reuse
  reuse-IsWf connect now hostname scheme none o m e w =
      create_tunnel-IsWf connect now hostname _ m w
  reuse-IsWf connect now hostname scheme (some i) none m e w =
      create_tunnel-IsWf connect now hostname _ m w
  reuse-IsWf connect now hostname scheme (some i) (some t) m e w =
      elim (Bool-cases (is_live t.state)) [
        | inl live ↦ rw live (put_tunnel-IsWf m i t (touch now t) e (unfold touch in refl) w)
        | inr dead ↦
            rw dead (create_tunnel-IsWf connect now hostname _ _ (delete-IsWf m hostname w))
      ]

  -- `GetOrCreateTunnel` keeps the maps well formed.
  pub get_or_create_tunnel-IsWf :
      (connect : Connect Client) (now : ℕ) (hostname scheme : Bytes) (m : Manager Client)
      → IsWf m
      → IsWf (get_or_create_tunnel connect now hostname scheme m).1
  unfolding get_or_create_tunnel
  get_or_create_tunnel-IsWf connect now hostname scheme m w =
      reuse-IsWf connect now hostname scheme (lookup m.tunnels hostname) _ m refl w
