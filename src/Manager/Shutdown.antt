-- ===== src/Manager/Shutdown.antt =====
-- `Shutdown`: every tunnel that a map leads to is stopped.
use lazyfwd.Base.{
  ℕ, ◌≡◌, ◌≢◌, ◌⊎◌, refl, sym, ap, subst, ◌∙◌, Option, none, some, List, [], ◌∷◌, arith, Bytes,
  bytes_eq, Eq, ◌==◌, get_elem?, set, get_elem?-set_self, get_elem?-set_ne, nat_beq, Bool-cases,
  Option-cases, inl, inr,
}
use lazyfwd.Base.Int.{ℤ, int_eq}
use lazyfwd.GoMap.{GoMap, lookup}
use lazyfwd.ClientFactory.{clear}
use lazyfwd.Tunnel.{Tunnel, State, idle, starting, running, stopping, failed, open_chan, stop}
use lazyfwd.Manager.{Manager}
use lazyfwd.Manager.Idle.{stop_all, shutdown}
use lazyfwd.Manager.Cleanup.{CanStop, stop_running, set-CanStop}

module _ {Client : Type 0} where
  stop_still : (t : Tunnel Client) → t.state ≢ running → stop t ≡ some t
  unfolding stop
  stop_still t n = ground arith

  -- Stopping a tunnel: what was not running stays as it was.
  stop_any :
      (t : Tunnel Client)
      → (t.state ≡ running → t.stop_chan ≡ open_chan)
      → (u : Tunnel Client) × (stop t ≡ some u) × (u.state ≢ running) × (t.state ≢ running → u ≡ t)
  stop_any t o = from t.state refl
    where
      still :
          t.state ≢ running
          → (u : Tunnel Client) × (stop t ≡ some u)
            × (u.state ≢ running)
            × (t.state ≢ running → u ≡ t)
      still n = (t, stop_still t n, n, λ k. refl)

      from :
          (s : State)
          → t.state ≡ s
          → (u : Tunnel Client) × (stop t ≡ some u)
            × (u.state ≢ running)
            × (t.state ≢ running → u ≡ t)
      from running e =
          let (u, q, i, n) = stop_running t e (o e) in (u, q, (λ r. cc (i, r)), λ k. absurd (k e))
      from idle e = still (λ r. cc (e, r))
      from starting e = still (λ r. cc (e, r))
      from stopping e = still (λ r. cc (e, r))
      from failed e = still (λ r. cc (e, r))

  -- What the loop over one map achieves: no panic, nothing of that map runs, and what did not run
  -- is as it was.
  record Stopped {K : Type 0} ⦃e : Eq K⦄ (m : GoMap K ℕ) (store : List (Tunnel Client))
      (r : Option (List (Tunnel Client))) : Type 0 where
    store' : List (Tunnel Client)
    returned : r ≡ some store'
    none_runs :
        (k : K) (i : ℕ) (t : Tunnel Client)
        → lookup m k ≡ some i
        → get_elem? store' i ≡ some t
        → t.state ≢ running
    still :
        (j : ℕ) (t : Tunnel Client)
        → get_elem? store j ≡ some t
        → t.state ≢ running
        → get_elem? store' j ≡ some t
    missing : (j : ℕ) → get_elem? store j ≡ none → get_elem? store' j ≡ none
    can_stop : CanStop store'

  unpack : (t u : Tunnel Client) → some t ≡ some u → t ≡ u
  unpack t u e = ap (λ (o : Option (Tunnel Client)). elim o [ none ↦ t | some x ↦ x ]) e

  -- An entry whose place is empty.
  absent :
      {K : Type 0} ⦃e : Eq K⦄ (k : K) (i : ℕ) (m : GoMap K ℕ) (store : List (Tunnel Client))
      → get_elem? store i ≡ none
      → Stopped m store (stop_all m store)
      → Stopped ((k, i) ∷ m) store (stop_all m store)
  unfolding lookup
  absent k i m store gone c = record {
    store' = c.store';
    returned = c.returned;
    none_runs = λ j p t l at. elim (Bool-cases (k == j)) [
      | inl eq ↦ cc (rw eq at l, c.missing i gone, at)
      | inr ne ↦ c.none_runs j p t (rw ne at l) at
    ];
    still = c.still;
    missing = c.missing;
    can_stop = c.can_stop;
  }

  -- An entry whose tunnel is stopped.
  stopped :
      {K : Type 0} ⦃e : Eq K⦄ (k : K) (i : ℕ) (m : GoMap K ℕ) (store : List (Tunnel Client))
      (t u : Tunnel Client)
      → get_elem? store i ≡ some t
      → u.state ≢ running
      → (t.state ≢ running → u ≡ t)
      → Stopped m (set store i u) (stop_all m (set store i u))
      → Stopped ((k, i) ∷ m) store (stop_all m (set store i u))
  unfolding lookup
  stopped k i m store t u there n same c = record {
    store' = c.store';
    returned = c.returned;
    none_runs = λ j p v l at. elim (Bool-cases (k == j)) [
      | inl eq ↦
          let here = c.still i u (get_elem?-set_self store i t u there) n in
          let at_i : get_elem? c.store' i ≡ some v = cc (rw eq at l, at) in
          subst (λ x. x.state ≢ running) (unpack u v (sym here ∙ at_i)) n
      | inr ne ↦ c.none_runs j p v (rw ne at l) at
    ];
    still = λ j v at ns. elim (Bool-cases (nat_beq i j)) [
      | inl eq ↦
          let q : i ≡ j = ground arith in
          let tv : t ≡ v = unpack t v (sym there ∙ ap (get_elem? store) q ∙ at) in
          let uv : u ≡ v = same (subst (λ x. x.state ≢ running) (sym tv) ns) ∙ tv in
          subst (λ x. get_elem? c.store' j ≡ some x) uv
            (c.still j u
              (subst (λ x. get_elem? (set store i u) x ≡ some u) q
                (get_elem?-set_self store i t u there))
              n)
      | inr ne ↦ c.still j v (get_elem?-set_ne store i j u (ground arith) ∙ at) ns
    ];
    missing = λ j g. elim (Bool-cases (nat_beq i j)) [
      | inl eq ↦ let q : i ≡ j = ground arith in cc (sym there ∙ ap (get_elem? store) q ∙ g)
      | inr ne ↦ c.missing j (get_elem?-set_ne store i j u (ground arith) ∙ g)
    ];
    can_stop = c.can_stop;
  }

  stop_all-Stopped :
      {K : Type 0} ⦃e : Eq K⦄ (m : GoMap K ℕ) (store : List (Tunnel Client))
      → CanStop store
      → Stopped m store (stop_all m store)
  unfolding stop_all
  stop_all-Stopped [] store cs = record {
    store' = store;
    returned = refl;
    none_runs = λ k i t l at. unfold lookup in cc (l);
    still = λ j t at n. at;
    missing = λ j g. g;
    can_stop = cs;
  }
  stop_all-Stopped ((k, i) ∷ m) store cs = elim (Option-cases (get_elem? store i)) [
    | inl gone ↦ rw (gone, stop_all) (absent k i m store gone (stop_all-Stopped m store cs))
    | inr (t, there) ↦
        let (u, q, n, same) = stop_any t (cs i t there) in
        rw (there, q, stop_all)
          (stopped k i m store t u there n same
            (stop_all-Stopped m (set store i u) (set-CanStop store i t u there n cs)))
  ]

  -- The tunnels that the maps of a manager lead to.
  abbrev pub IsMapped : Manager Client → ℕ → Type 0
  IsMapped m i =
      ((h : Bytes) × (lookup m.tunnels h ≡ some i)) ⊎ ((p : ℤ) × (lookup m.tcp_tunnels p ≡ some i))

  shutdown_by :
      (m : Manager Client) (s s' : List (Tunnel Client))
      → stop_all m.tunnels m.store ≡ some s
      → stop_all m.tcp_tunnels s ≡ some s'
      → shutdown m ≡ some (record m { store = s'; tunnels = []; tcp_tunnels = []; clients = [] })
  unfolding shutdown clear
  shutdown_by m s s' e e' = ground (arith, e, e')

  -- What the first loop has stopped stays stopped in the second.
  through :
      (m : Manager Client) (a : Stopped m.tunnels m.store (stop_all m.tunnels m.store))
      (b : Stopped m.tcp_tunnels a.store' (stop_all m.tcp_tunnels a.store')) (i : ℕ)
      (t : Tunnel Client)
      → IsMapped m i
      → get_elem? b.store' i ≡ some t
      → t.state ≢ running
  through m a b i t (inr (p, l)) at = b.none_runs p i t l at
  through m a b i t (inl (h, l)) at = elim (Option-cases (get_elem? a.store' i)) [
    | inl gone ↦ cc (b.missing i gone, at)
    | inr (v, there) ↦
        let n = a.none_runs h i v l there in
        subst (λ x. x.state ≢ running) (unpack v t (sym (b.still i v there n) ∙ at)) n
  ]

  -- Shutting a manager down whose running tunnels can be stopped does not panic. Afterwards the
  -- maps and the cache of clients are empty, and none of the tunnels that they led to is running.
  pub shutdown-stops_all :
      (m : Manager Client)
      → CanStop m.store
      → (left : Manager Client) × (shutdown m ≡ some left)
        × (left.tunnels ≡ [])
        × (left.tcp_tunnels ≡ [])
        × (left.clients ≡ [])
        × ((i : ℕ) (t : Tunnel Client)
            → IsMapped m i
            → get_elem? left.store i ≡ some t
            → t.state ≢ running)
  unfolding shutdown clear
  shutdown-stops_all m cs =
      let a = stop_all-Stopped m.tunnels m.store cs in
      let b = stop_all-Stopped m.tcp_tunnels a.store' a.can_stop in
      (
        record m { store = b.store'; tunnels = []; tcp_tunnels = []; clients = [] },
        shutdown_by m a.store' b.store' a.returned b.returned,
        refl,
        refl,
        refl,
        λ i t mapped at. through m a b i t mapped at,
      )
