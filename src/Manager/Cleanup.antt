-- ===== src/Manager/Cleanup.antt =====
-- What the sweep of idle tunnels takes away, and what it leaves.
use lazyfwd.Base.{
  ℕ, ◌≡◌, ◌≢◌, refl, sym, ap, subst, ◌∙◌, true, false, Option, none, some, List, [], ◌∷◌, arith,
  get_elem?, set, get_elem?-set_self, get_elem?-set_ne, Eq, ◌==◌, if◌then◌else◌, nat_beq,
  Bool-cases, Option-cases, inl, inr,
}
use lazyfwd.Base.Int.{ℤ}
use lazyfwd.GoMap.{GoMap, IsMap, lookup}
use lazyfwd.Tunnel.{Tunnel, idle, running, open_chan, closed_chan, stop}
use lazyfwd.Manager.Idle.{is_expired, Swept, keep_entry, sweep_entry, sweep}

-- Every running tunnel of a store can be stopped.
abbrev pub CanStop : {Client : Type 0} → List (Tunnel Client) → Type 0
CanStop {Client} store =
    (i : ℕ) (t : Tunnel Client)
    → get_elem? store i ≡ some t
    → t.state ≡ running
    → t.stop_chan ≡ open_chan

module _ {Client : Type 0} where
  -- Stopping a running tunnel whose channel is open.
  pub stop_running :
      (t : Tunnel Client)
      → t.state ≡ running
      → t.stop_chan ≡ open_chan
      → (u : Tunnel Client) × (stop t ≡ some u) × (u.state ≡ idle) × (u.hostname ≡ t.hostname)
  unfolding stop
  stop_running t r c =
      (record t { state = idle; stop_chan = closed_chan }, ground arith, refl, refl)

  expired_running :
      (now : ℕ) (timeout : ℤ) (t : Tunnel Client)
      → is_expired now timeout t ≡ true
      → t.state ≡ running
  unfolding is_expired
  expired_running now timeout t h = ground arith

  pub set-CanStop :
      (store : List (Tunnel Client)) (i : ℕ) (t u : Tunnel Client)
      → get_elem? store i ≡ some t
      → u.state ≢ running
      → CanStop store
      → CanStop (set store i u)
  set-CanStop store i t u e stopped h j v there run = elim (Bool-cases (nat_beq i j)) [
    | inl eq ↦
        let k : j ≡ i = ground arith in
        let same = get_elem?-set_self store i t u e in
        absurd (not_both v u (sym there ∙ ap (get_elem? (set store i u)) k ∙ same) stopped run)
    | inr ne ↦ h j v (sym (get_elem?-set_ne store i j u (ground arith)) ∙ there) run
  ]
    where
      not_both : (a b : Tunnel Client) → some a ≡ some b → b.state ≢ running → a.state ≡ running → ⊥
      not_both a b q x y = x (
          ap (λ (o : Option (Tunnel Client)). elim o [ none ↦ running | some t ↦ t.state ]) (sym q)
          ∙ y)

  idle_young :
      (now : ℕ) (timeout : ℤ) (t : Tunnel Client)
      → t.state ≡ idle
      → is_expired now timeout t ≡ false
  unfolding is_expired
  idle_young now timeout t h = ground arith

  renamed :
      {P : Tunnel Client → Type 0} (u t v : Tunnel Client)
      → u.hostname ≡ t.hostname
      → some t ≡ some v
      → ((w : Tunnel Client) × P w × (w.hostname ≡ u.hostname))
      → (w : Tunnel Client) × P w × (w.hostname ≡ v.hostname)
  renamed u t v named same (w, p, e) = (
    w,
    p,
    e
        ∙ named
        ∙ ap (λ (o : Option (Tunnel Client)). elim o [ none ↦ [] | some x ↦ x.hostname ]) same,
  )

  -- What is left of the place of a key.
  abbrev pub survivor : ℕ → ℤ → ℕ → Option (Tunnel Client) → Option ℕ
  survivor now timeout i none = some i
  survivor now timeout i (some t) = if is_expired now timeout t then none else some i

  abbrev pub surviving : ℕ → ℤ → List (Tunnel Client) → Option ℕ → Option ℕ
  surviving now timeout store none = none
  surviving now timeout store (some i) = survivor now timeout i (get_elem? store i)

  surviving-set :
      (now : ℕ) (timeout : ℤ) (store : List (Tunnel Client)) (i : ℕ) (u : Tunnel Client)
      (o : Option ℕ)
      → o ≢ some i
      → surviving now timeout (set store i u) o ≡ surviving now timeout store o
  surviving-set now timeout store i u none n = refl
  surviving-set now timeout store i u (some j) n =
      ap (survivor now timeout j) (get_elem?-set_ne store i j u (λ q. n (ap some (sym q))))

-- No two keys lead to one place.
abbrev pub Apart : {K : Type 0} ⦃e : Eq K⦄ → GoMap K ℕ → Type 0
Apart [] = Unit
Apart {K} ((k, i) ∷ m) = ((j : K) → lookup m j ≢ some i) × Apart m

module _ {Client K : Type 0} ⦃e : Eq K⦄ (now : ℕ) (timeout : ℤ) where
  -- The result of a sweep: there is one; exactly the expired entries are gone; each expired tunnel
  -- is idle, and every other tunnel is as it was.
  pub record Cleaned (m : GoMap K ℕ) (store : List (Tunnel Client)) (r : Option (Swept Client K))
      : Type 0 where
    pub left : GoMap K ℕ
    pub store' : List (Tunnel Client)
    pub returned : r ≡ some (left, store')
    pub entries : (k : K) → lookup left k ≡ surviving now timeout store (lookup m k)
    pub young_kept :
        (j : ℕ) (t : Tunnel Client)
        → get_elem? store j ≡ some t
        → is_expired now timeout t ≡ false
        → get_elem? store' j ≡ some t
    pub old_stopped :
        (k : K) (i : ℕ) (t : Tunnel Client)
        → lookup m k ≡ some i
        → get_elem? store i ≡ some t
        → is_expired now timeout t ≡ true
        → (u : Tunnel Client) × (get_elem? store' i ≡ some u) × (u.state ≡ idle)
    pub names_kept :
        (j : ℕ) (t : Tunnel Client)
        → get_elem? store j ≡ some t
        → (u : Tunnel Client) × (get_elem? store' j ≡ some u) × (u.hostname ≡ t.hostname)

  -- An entry that stays.
  young_entry :
      (k : K) (i : ℕ) (m : GoMap K ℕ) (store : List (Tunnel Client))
      → survivor now timeout i (get_elem? store i) ≡ some i
      → Cleaned m store (sweep now timeout m store)
      → Cleaned ((k, i) ∷ m) store (keep_entry k i (sweep now timeout m store))
  unfolding lookup
  young_entry k i m store stays c = record {
    left = (k, i) ∷ c.left;
    store' = c.store';
    returned = rw c.returned refl;
    entries = λ j. elim (Bool-cases (k == j)) [
      | inl eq ↦ rw eq (sym stays)
      | inr ne ↦ rw ne (c.entries j)
    ];
    young_kept = c.young_kept;
    names_kept = c.names_kept;
    old_stopped = λ j p t l there old. elim (Bool-cases (k == j)) [
      | inl eq ↦
          let q : i ≡ p = ground arith in
          let same : get_elem? store i ≡ some t = ap (get_elem? store) q ∙ there in
          cc (rw (same, old) at stays)
      | inr ne ↦ c.old_stopped j p t (rw ne at l) there old
    ];
  }

  -- An entry that goes.
  old_entry :
      (k : K) (i : ℕ) (m : GoMap K ℕ) (store : List (Tunnel Client)) (t u : Tunnel Client)
      → get_elem? store i ≡ some t
      → is_expired now timeout t ≡ true
      → u.state ≡ idle
      → u.hostname ≡ t.hostname
      → lookup m k ≡ none
      → ((j : K) → lookup m j ≢ some i)
      → Cleaned m (set store i u) (sweep now timeout m (set store i u))
      → Cleaned ((k, i) ∷ m) store (sweep now timeout m (set store i u))
  unfolding lookup
  old_entry k i m store t u there old stopped named new apart c = record {
    left = c.left;
    store' = c.store';
    returned = c.returned;
    entries = λ j. elim (Bool-cases (k == j)) [
      | inl eq ↦ rw eq (
          c.entries j
          ∙ ap (surviving now timeout (set store i u))
              (sym (ap (lookup m) ((e.beq_iff k j).0 eq)) ∙ new)
          ∙ sym (ap (survivor now timeout i) there ∙ ap (λ b. if b then none else some i) old))
      | inr ne ↦ rw ne (c.entries j ∙ surviving-set now timeout store i u (lookup m j) (apart j))
    ];
    young_kept = λ j v at_j young. elim (Bool-cases (nat_beq i j)) [
      | inl eq ↦
          let q : i ≡ j = ground arith in
          let same : some t ≡ some v = sym there ∙ ap (get_elem? store) q ∙ at_j in
          cc (old, young, same)
      | inr ne ↦ c.young_kept j v (get_elem?-set_ne store i j u (ground arith) ∙ at_j) young
    ];
    names_kept = λ j v at_j. elim (Bool-cases (nat_beq i j)) [
      | inl eq ↦
          let q : i ≡ j = ground arith in
          let same : some t ≡ some v = sym there ∙ ap (get_elem? store) q ∙ at_j in
          renamed u t v named same (
            c.names_kept j u (
              subst (λ n. get_elem? (set store i u) n ≡ some u) q
                (get_elem?-set_self store i t u there)))
      | inr ne ↦ c.names_kept j v (get_elem?-set_ne store i j u (ground arith) ∙ at_j)
    ];
    old_stopped = λ j p v l at_p old'. elim (Bool-cases (k == j)) [
      | inl eq ↦
          let q : i ≡ p = ground arith in
          (
            u,
            ap (get_elem? c.store') (sym q)
                ∙ c.young_kept i u (get_elem?-set_self store i t u there)
                    (idle_young now timeout u stopped),
            stopped,
          )
      | inr ne ↦
          let l' : lookup m j ≡ some p = rw ne at l in
          c.old_stopped j p v l'
            (get_elem?-set_ne store i p u (λ q. apart j (l' ∙ ap some (sym q))) ∙ at_p) old'
    ];
  }

  -- A sweep of a map in which no key stands twice and no two keys lead to one place does not panic
  -- if every running tunnel can be stopped. It takes exactly the expired
  -- entries out of the map; their tunnels are idle afterwards, and every tunnel that is not expired
  -- stays in the store as it was.
  pub sweep-Cleaned :
      (m : GoMap K ℕ) (store : List (Tunnel Client))
      → IsMap m
      → Apart m
      → CanStop store
      → Cleaned m store (sweep now timeout m store)
  unfolding sweep sweep_entry
  sweep-Cleaned [] store im apart cs = record {
    left = [];
    store' = store;
    returned = refl;
    entries = λ k. unfold lookup in refl;
    young_kept = λ j t there young. there;
    old_stopped = λ k i t l there old. unfold lookup in cc (l);
    names_kept = λ j t there. (t, there, refl);
  }
  sweep-Cleaned ((k, i) ∷ m) store im apart cs = elim (Option-cases (get_elem? store i)) [
    | inl gone ↦
        rw (gone, sweep_entry)
          (young_entry k i m store (ap (survivor now timeout i) gone)
            (sweep-Cleaned m store im.1 apart.1 cs))
    | inr (t, there) ↦ elim (Bool-cases (is_expired now timeout t)) [
      | inr young ↦
          rw (there, young, sweep_entry)
            (young_entry k i m store
              (ap (survivor now timeout i) there ∙ ap (λ b. if b then none else some i) young)
              (sweep-Cleaned m store im.1 apart.1 cs))
      | inl old ↦
          let run = expired_running now timeout t old in
          let (u, stops, stopped, named) = stop_running t run (cs i t there run) in
          rw (there, old, stops, sweep_entry)
            (old_entry k i m store t u there old stopped named im.0 apart.0 (
              sweep-Cleaned m (set store i u) im.1 apart.1
                (set-CanStop store i t u there (λ r. cc (stopped, r)) cs)))
    ]
  ]
