-- ===== src/Manager/Expiry.antt =====
-- The sweep of the HTTP tunnels of a whole manager.
use lazyfwd.Base.{
  ℕ, ◌≡◌, refl, sym, ap, ◌∙◌, Option, none, some, List, [], ◌∷◌, Bytes, bytes_eq, bytes_beq_iff,
  ◌==◌, get_elem?, Bool-cases, inl, inr,
}
use lazyfwd.Base.Int.{ℤ}
use lazyfwd.GoMap.{GoMap, IsMap, lookup}
use lazyfwd.Tunnel.{Tunnel}
use lazyfwd.Manager.{Manager, tunnel_id}
use lazyfwd.Manager.Wf.{Holds, IsWf}
use lazyfwd.Manager.Idle.{is_expired, sweep, cleanup_http}
use lazyfwd.Manager.Cleanup.{CanStop, Apart, Cleaned, surviving, survivor, sweep-Cleaned}

-- Different keys lead to different places.
abbrev Injective : GoMap Bytes ℕ → Type 0
Injective m = (h k : Bytes) (i : ℕ) → lookup m h ≡ some i → lookup m k ≡ some i → h ≡ k

behind :
    (k h : Bytes) (i j : ℕ) (m : GoMap Bytes ℕ)
    → lookup m k ≡ none
    → lookup m h ≡ some j
    → lookup ((k, i) ∷ m) h ≡ some j
unfolding lookup
behind k h i j m new l = elim (Bool-cases (k == h)) [
  | inl e ↦ cc (new, l, (bytes_beq_iff k h).0 e)
  | inr n ↦ rw n l
]

front : (k : Bytes) (i : ℕ) (m : GoMap Bytes ℕ) → lookup ((k, i) ∷ m) k ≡ some i
unfolding lookup
front k i m = rw ((bytes_beq_iff k k).1 refl) refl

Injective-Apart : (m : GoMap Bytes ℕ) → IsMap m → Injective m → Apart m
Injective-Apart [] im inj = tt
Injective-Apart ((k, i) ∷ m) im inj = (
  (λ j l. cc (im.0, l, inj k j i (front k i m) (behind k j i i m im.0 l))),
  Injective-Apart m im.1
      (λ h h' p l l'. inj h h' p (behind k h i p m im.0 l) (behind k h' i p m im.0 l')),
)

module _ {Client : Type 0} where
  IsWf-Injective : (m : Manager Client) → IsWf m → Injective m.tunnels
  IsWf-Injective m w h k i l l' =
      let a = w.places h i l in
      let b = w.places k i l' in
      sym a.named ∙ same a.tunnel b.tunnel (sym a.there ∙ b.there) ∙ b.named
    where
      same : (t u : Tunnel Client) → some t ≡ some u → t.hostname ≡ u.hostname
      same t u e = ap (λ (o : Option (Tunnel Client)). elim o [ none ↦ [] | some x ↦ x.hostname ]) e

  surviving-some :
      (now : ℕ) (timeout : ℤ) (store : List (Tunnel Client)) (o : Option ℕ) (i : ℕ)
      → surviving now timeout store o ≡ some i
      → o ≡ some i
  surviving-some now timeout store none i h = cc (h)
  surviving-some now timeout store (some j) i h = from (get_elem? store j) h
    where
      from : (t : Option (Tunnel Client)) → survivor now timeout j t ≡ some i → some j ≡ some i
      from none q = q
      from (some t) q = elim (Bool-cases (is_expired now timeout t)) [
        | inl e ↦ cc (rw e at q)
        | inr e ↦ rw e at q
      ]

  swept-IsWf :
      (now : ℕ) (timeout : ℤ) (m : Manager Client)
      (c : Cleaned now timeout m.tunnels m.store (sweep now timeout m.tunnels m.store))
      → IsWf m
      → IsWf (record m { tunnels = c.left; store = c.store' })
  swept-IsWf now timeout m c w = record {
    places = λ h i l. kept i h (
        w.places h i
          (surviving-some now timeout m.store (lookup m.tunnels h) i (sym (c.entries h) ∙ l)));
    tcp_places = λ p i l. kept i (tunnel_id p) (w.tcp_places p i l);
  }
    where
      kept :
          (i : ℕ) (name : Bytes)
          → Holds m i name
          → Holds (record m { tunnels = c.left; store = c.store' }) i name
      kept i name h =
          let (u, at_i, named) = c.names_kept i h.tunnel h.there in
          record { tunnel = u; there = at_i; named = named ∙ h.named }

  -- Sweeping the HTTP tunnels of a well-formed manager, whose running tunnels can be stopped and in
  -- whose map of HTTP no hostname stands twice, does not panic and leaves a well-formed manager. Exactly the expired entries are gone, their tunnels
  -- are idle, and every tunnel that is not expired stays as it was.
  pub cleanup_http-Cleaned :
      (now : ℕ) (m : Manager Client)
      → IsMap m.tunnels
      → IsWf m
      → CanStop m.store
      → (left : Manager Client) × (cleanup_http now m ≡ some left)
        × IsWf left
        × Cleaned now m.config.http.idle_timeout m.tunnels m.store (some (left.tunnels, left.store))
  unfolding cleanup_http
  cleanup_http-Cleaned now m im w cs =
      let apart = Injective-Apart m.tunnels im (IsWf-Injective m w) in
      let c = sweep-Cleaned now m.config.http.idle_timeout m.tunnels m.store im apart cs in
      (
        record m { tunnels = c.left; store = c.store' },
        rw c.returned refl,
        swept-IsWf now m.config.http.idle_timeout m c w,
        record {
          left = c.left;
          store' = c.store';
          returned = refl;
          entries = c.entries;
          young_kept = c.young_kept;
          names_kept = c.names_kept;
          old_stopped = c.old_stopped;
        },
      )
