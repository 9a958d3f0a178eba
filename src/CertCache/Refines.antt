-- ===== src/CertCache/Refines.antt =====
-- The insertion into the cache and the whole of `GetCertificate`, against the ideal cache.
use lazyfwd.Base.{
  ℕ, zero, suc, ◌≤◌, ◌≡◌, refl, ap, ◌∙◌, none, some, List, [], ◌∷◌, arith, Bytes, bytes_eq,
  bytes_beq_iff, length, take, All, leb, leb→le, ◌==◌, Bool-cases, Option-cases, Result, ok, err,
  inl, inr,
}
use lazyfwd.GoMap.{GoMap, lookup, delete, lookup-delete, lookup-insert}
use lazyfwd.CertCache.{
  Element, Cache, max_cert_cache_size, back, dropped, evict, push, added, add_cert, generated,
  returned, get_certificate,
}
use lazyfwd.CertCache.Elements.{
  Differs, view, element_of, cert_of, lookup-view, All-remove, remove-AllDiffer, view-remove,
  element_of-remove, holds-element_of, length-remove, back-element_of, delete-back, back-some,
  length-view,
}
use lazyfwd.CertCache.Find.{
  ideal_find, ideal_add, IsWf, Refined, find_cached-hit, find_cached-miss, lookup-hit, moved-IsWf,
  moved-seen,
}

module _ {Cert : Type 0} where
  -- A cache with room for one more entry, at most one entry poorer.
  record Evicted (h : Bytes) (c d : Cache Cert) : Type 0 where
    wf : IsWf d
    room : suc (length d.lru_list) ≤ max_cert_cache_size
    absent : element_of d.lru_list h ≡ none
    seen : view d.lru_list ≡ take 999 (view c.lru_list)

  take_all : (n : ℕ) (v : GoMap Bytes Cert) → length v ≤ n → v ≡ take n v
  take_all zero [] h = refl
  take_all zero (x ∷ v) h = absurd (omega arith)
  take_all (suc n) [] h = refl
  take_all (suc n) (x ∷ v) h = ap (λ t. x ∷ t) (take_all n v (omega arith))

  dropped-Evicted :
      (h : Bytes) (c : Cache Cert) (e : Element Cert)
      → IsWf c
      → element_of c.lru_list h ≡ none
      → length c.lru_list ≡ 1000
      → back c.lru_list ≡ some e
      → Evicted h c (dropped (some e) c)
  unfolding dropped
  dropped-Evicted h c e w none_here full b =
      let l = c.lru_list in
      let q = back-element_of l e w.differ b in
      let shorter = length-remove l e.number (holds-element_of l e.hostname e q) in
      record {
        wf = record {
          differ = remove-AllDiffer e.number l w.differ;
          agrees = λ k.
              lookup-delete c.cert_cache e.hostname k
              ∙ ground (arith, w.agrees k, element_of-remove l e.hostname k e w.differ q);
          below = All-remove _ e.number l w.below;
          bounded = omega (arith, w.bounded, shorter);
        };
        room = omega (arith, full, shorter);
        absent = element_of-remove l e.hostname h e w.differ q ∙ ground (arith, none_here);
        seen = view-remove l e.hostname e w.differ q ∙ delete-back l e 999 w.differ b full;
      }

  evict-Evicted :
      (h : Bytes) (c : Cache Cert) → IsWf c → element_of c.lru_list h ≡ none → Evicted h c (evict c)
  unfolding evict
  evict-Evicted h c w q = elim (Bool-cases (leb max_cert_cache_size (length c.lru_list))) [
    | inr free ↦ rw free (record {
      wf = w;
      room = ground (arith, free);
      absent = q;
      seen = take_all 999 (view c.lru_list) (ground (arith, free, length-view c.lru_list));
    })
    | inl full ↦
        let many = leb→le max_cert_cache_size (length c.lru_list) full in
        let (e, b) = back-some c.lru_list (omega (arith, many)) in
        rw (full, b) (dropped-Evicted h c e w q (omega (arith, many, w.bounded)) b)
  ]

  push-IsWf :
      (h : Bytes) (cert : Cert) (c : Cache Cert)
      → IsWf c
      → suc (length c.lru_list) ≤ max_cert_cache_size
      → element_of c.lru_list h ≡ none
      → IsWf (push h cert c)
  unfolding push element_of
  push-IsWf h cert c w room absent = record {
    differ = (fresh c.lru_list absent w.below, w.differ);
    agrees = λ k. lookup-insert c.cert_cache h k _ ∙ ground (arith, w.agrees k);
    below = (omega arith, weaker c.lru_list w.below);
    bounded = room;
  }
    where
      new : Element Cert
      new = record { number = c.next; hostname = h; cert = cert }

      fresh :
          (l : List (Element Cert))
          → element_of l h ≡ none
          → All (λ e. suc e.number ≤ c.next) l
          → All (Differs new) l
      fresh [] q b = tt
      fresh (e ∷ l) q b = elim (Bool-cases (e.hostname == h)) [
        | inl s ↦ cc (rw s at q)
        | inr n ↦ (
          ((λ r. cc (n, (bytes_beq_iff e.hostname h).1 r)), λ r. omega (arith, b.0, r)),
          fresh l (rw n at q) b.1,
        )
      ]

      weaker :
          (l : List (Element Cert))
          → All (λ e. suc e.number ≤ c.next) l
          → All (λ e. suc e.number ≤ suc c.next) l
      weaker [] b = tt
      weaker (e ∷ l) b = (omega (arith, b.0), weaker l b.1)

  -- Adding a certificate refines the ideal addition.
  pub add_cert-Refined :
      (h : Bytes) (cert : Cert) (c : Cache Cert)
      → IsWf c
      → Refined (add_cert h cert c) (ideal_add h cert (view c.lru_list))
  unfolding add_cert ideal_add
  add_cert-Refined h cert c w = elim (Option-cases (element_of c.lru_list h)) [
    | inr (e, q) ↦
        rw (find_cached-hit h c e w q, lookup-hit c h e q, added, ideal_add)
          (record { wf = moved-IsWf c h e w q; result = refl; seen = moved-seen c h e w q })
    | inl q ↦
        let v = evict-Evicted h c w q in
        rw (find_cached-miss h c w q, lookup-view c.lru_list h ∙ ap cert_of q, added, ideal_add)
          (record {
            wf = push-IsWf h cert (evict c) v.wf v.room v.absent;
            result = refl;
            seen = unfold push in ap (λ t. (h, cert) ∷ t) v.seen;
          })
  ]

-- The ideal `GetCertificate`: an error leaves the cache to what the others have made of it.
unfoldable pub ideal_get :
    {Cert : Type 0}
    → Result Bytes Cert
    → Bytes
    → GoMap Bytes Cert
    → GoMap Bytes Cert
    → Result Bytes Cert × GoMap Bytes Cert
unfolding ideal_find ideal_add
ideal_get made h before after = elim (lookup before h) [
  | some c ↦ (ok c, (h, c) ∷ delete before h)
  | none ↦ elim made [
    | err e ↦ (err e, after)
    | ok cert ↦ (ok (ideal_add h cert after).0, (ideal_add h cert after).1)
  ]
]

module _ {Cert : Type 0} where
  -- `GetCertificate` refines the ideal cache of the 1000 hostnames that were used last, whatever
  -- other goroutines do between its two critical sections as long as they keep the cache well
  -- formed; the cache stays well formed, so it never holds more than 1000 certificates.
  pub get_certificate-Refined :
      (make : Bytes → Result Bytes Cert) (others : Cache Cert → Cache Cert) (h : Bytes)
      (c : Cache Cert)
      → ((d : Cache Cert) → IsWf d → IsWf (others d))
      → IsWf c
      → Refined
          (get_certificate make others h c)
          (ideal_get (make h) h (view c.lru_list) (view (others c).lru_list))
  unfolding get_certificate ideal_get
  get_certificate-Refined make others h c keep w = elim (Option-cases (element_of c.lru_list h)) [
    | inr (e, q) ↦
        rw (find_cached-hit h c e w q, lookup-hit c h e q, generated, ideal_get)
          (record { wf = moved-IsWf c h e w q; result = refl; seen = moved-seen c h e w q })
    | inl q ↦
        rw (find_cached-miss h c w q, lookup-view c.lru_list h ∙ ap cert_of q, ideal_get)
          (missed (make h))
  ]
    where
      missed :
          (m : Result Bytes Cert)
          → Refined (generated others h m (none, c)) (elim m [
            | err e ↦ (err e, view (others c).lru_list)
            | ok cert ↦ (
              ok (ideal_add h cert (view (others c).lru_list)).0,
              (ideal_add h cert (view (others c).lru_list)).1,
            )
          ])
      missed (err e) = unfold generated in record { wf = keep c w; result = refl; seen = refl }
      missed (ok cert) =
          let r = add_cert-Refined h cert (others c) (keep c w) in
          unfold generated returned in record { wf = r.wf; result = ap ok r.result; seen = r.seen }
