-- ===== src/CertCache/Find.antt =====
-- The lookup of a certificate, against an ideal cache: a list of hostnames and certificates, most recently
-- used first.
use lazyfwd.Base.{
  suc, ◌≤◌, ◌≡◌, refl, ap, ◌∙◌, Option, none, some, ◌∷◌, arith, Bytes, bytes_eq, bytes_beq_iff,
  length, take, All, Option-cases, inl, inr,
}
use lazyfwd.GoMap.{GoMap, lookup, delete}
use lazyfwd.CertCache.{
  Element, Cache, max_cert_cache_size, remove, move_to_front, found, find_cached,
}
use lazyfwd.CertCache.Elements.{
  AllDiffer, view, element_of, cert_of, lookup-view, element_of-hostname, All-remove,
  remove-AllDiffer, element_of-All, view-remove, element_of-remove, holds-element_of, length-remove,
  remove-Differs,
}

-- The ideal cache: what is looked up moves to the front, and what is added pushes out the last
-- entry of a full list.
unfoldable pub ideal_find :
    {Cert : Type 0} → Bytes → GoMap Bytes Cert → Option Cert × GoMap Bytes Cert
ideal_find h v = elim (lookup v h) [ none ↦ (none, v) | some c ↦ (some c, (h, c) ∷ delete v h) ]

unfoldable pub ideal_add :
    {Cert : Type 0} → Bytes → Cert → GoMap Bytes Cert → Cert × GoMap Bytes Cert
ideal_add h cert v = elim (lookup v h) [
  | none ↦ (cert, take max_cert_cache_size ((h, cert) ∷ v))
  | some c ↦ (c, (h, c) ∷ delete v h)
]

pub record IsWf {Cert : Type 0} (c : Cache Cert) : Type 0 where
  pub differ : AllDiffer c.lru_list
  pub agrees : (h : Bytes) → lookup c.cert_cache h ≡ element_of c.lru_list h
  pub below : All (λ e. suc e.number ≤ c.next) c.lru_list
  pub bounded : length c.lru_list ≤ max_cert_cache_size

-- A result and a state, against those of the ideal cache.
pub record Refined {Cert A : Type 0} (r : A × Cache Cert) (ideal : A × GoMap Bytes Cert)
    : Type 0 where
  pub wf : IsWf r.1
  pub result : r.0 ≡ ideal.0
  pub seen : view r.1.lru_list ≡ ideal.1

module _ {Cert : Type 0} where
  pub moved-IsWf :
      (c : Cache Cert) (h : Bytes) (e : Element Cert)
      → IsWf c
      → element_of c.lru_list h ≡ some e
      → IsWf (record c { lru_list = e ∷ remove e.number c.lru_list })
  unfolding element_of
  moved-IsWf c h e w q =
      let name = element_of-hostname c.lru_list h e q in
      record {
        differ = (
          remove-Differs c.lru_list h e w.differ q,
          remove-AllDiffer e.number c.lru_list w.differ,
        );
        agrees = λ k.
            w.agrees k
            ∙ ground (
              arith,
              q,
              name,
              element_of-remove c.lru_list h k e w.differ q,
              bytes_beq_iff e.hostname k,
              bytes_beq_iff h k,
            );
        below =
            (element_of-All _ c.lru_list h e w.below q, All-remove _ e.number c.lru_list w.below);
        bounded = omega (
          arith,
          w.bounded,
          length-remove c.lru_list e.number (holds-element_of c.lru_list h e q),
        );
      }

  pub find_cached-hit :
      (h : Bytes) (c : Cache Cert) (e : Element Cert)
      → IsWf c
      → element_of c.lru_list h ≡ some e
      → find_cached h c ≡ (some e.cert, record c { lru_list = e ∷ remove e.number c.lru_list })
  unfolding find_cached move_to_front
  find_cached-hit h c e w q =
      rw (w.agrees h, q, holds-element_of c.lru_list h e q, found, move_to_front) refl

  pub find_cached-miss :
      (h : Bytes) (c : Cache Cert)
      → IsWf c
      → element_of c.lru_list h ≡ none
      → find_cached h c ≡ (none, c)
  unfolding find_cached
  find_cached-miss h c w q = rw (w.agrees h, q, found) refl

  pub lookup-hit :
      (c : Cache Cert) (h : Bytes) (e : Element Cert)
      → element_of c.lru_list h ≡ some e
      → lookup (view c.lru_list) h ≡ some e.cert
  lookup-hit c h e q = lookup-view c.lru_list h ∙ ap cert_of q

  pub moved-seen :
      (c : Cache Cert) (h : Bytes) (e : Element Cert)
      → IsWf c
      → element_of c.lru_list h ≡ some e
      → view (e ∷ remove e.number c.lru_list) ≡ (h, e.cert) ∷ delete (view c.lru_list) h
  moved-seen c h e w q =
      let name = element_of-hostname c.lru_list h e q in
      let rest = view-remove c.lru_list h e w.differ q in rw (rest, name) refl

  -- A lookup refines the ideal lookup.
  pub find_cached-Refined :
      (h : Bytes) (c : Cache Cert)
      → IsWf c
      → Refined (find_cached h c) (ideal_find h (view c.lru_list))
  unfolding ideal_find
  find_cached-Refined h c w = elim (Option-cases (element_of c.lru_list h)) [
    | inl q ↦
        rw (find_cached-miss h c w q, lookup-view c.lru_list h ∙ ap cert_of q, ideal_find)
          (record { wf = w; result = refl; seen = refl })
    | inr (e, q) ↦
        rw (find_cached-hit h c e w q, lookup-hit c h e q, ideal_find)
          (record { wf = moved-IsWf c h e w q; result = refl; seen = moved-seen c h e w q })
  ]
