-- ===== src/CertCache/Elements.antt =====
-- The list of elements as a map from hostnames to certificates.
use lazyfwd.Base.{
  ℕ, zero, suc, ◌≤◌, ◌≡◌, ◌≢◌, refl, sym, ap, subst, some_injective, ◌∙◌, true, false, Option, none,
  some, List, [], ◌∷◌, arith, Bytes, bytes_eq, bytes_beq_iff, length, take, All, All-map, nat_beq,
  nat_beq_iff, ◌==◌, beq_self, if◌then◌else◌, Bool-cases, inl, inr,
}
use lazyfwd.GoMap.{GoMap, lookup, delete}
use lazyfwd.CertCache.{Element, holds, remove, back}

-- Two elements differ in hostname and in number.
abbrev pub Differs : {Cert : Type 0} → Element Cert → Element Cert → Type 0
Differs e f = (f.hostname ≢ e.hostname) × (f.number ≢ e.number)

-- All elements of a list differ.
abbrev pub AllDiffer : {Cert : Type 0} → List (Element Cert) → Type 0
AllDiffer [] = Unit
AllDiffer (e ∷ l) = All (Differs e) l × AllDiffer l

host_differs : (a b : Bytes) → a ≢ b → (a == b) ≡ false
host_differs a b n = ground (arith, n, bytes_beq_iff a b)

module _ {Cert : Type 0} where
  abbrev pub view : List (Element Cert) → GoMap Bytes Cert
  view [] = []
  view (e ∷ l) = (e.hostname, e.cert) ∷ view l

  -- The element of a hostname.
  unfoldable pub element_of : List (Element Cert) → Bytes → Option (Element Cert)
  element_of [] h = none
  element_of (e ∷ l) h = if e.hostname == h then some e else element_of l h

  abbrev pub cert_of : Option (Element Cert) → Option Cert
  cert_of none = none
  cert_of (some e) = some e.cert

  pub lookup-view :
      (l : List (Element Cert)) (h : Bytes) → lookup (view l) h ≡ cert_of (element_of l h)
  unfolding lookup element_of
  lookup-view [] h = refl
  lookup-view (e ∷ l) h = ground (arith, lookup-view l h)

  pub element_of-hostname :
      (l : List (Element Cert)) (h : Bytes) (e : Element Cert)
      → element_of l h ≡ some e
      → e.hostname ≡ h
  unfolding element_of
  element_of-hostname (f ∷ l) h e q = elim (Bool-cases (f.hostname == h)) [
    | inl s ↦
        ap (λ (x : Element Cert). x.hostname) (sym (some_injective (rw s at q)))
        ∙ (bytes_beq_iff f.hostname h).0 s
    | inr n ↦ element_of-hostname l h e (rw n at q)
  ]
  element_of-hostname [] h e q = cc (q)

  pub All-remove :
      (P : Element Cert → Type 0) (n : ℕ) (l : List (Element Cert)) → All P l → All P (remove n l)
  unfolding remove
  All-remove P n [] h = tt
  All-remove P n (e ∷ l) h = elim (Bool-cases (nat_beq e.number n)) [
    | inl s ↦ rw s h.1
    | inr d ↦ rw d (h.0, All-remove P n l h.1)
  ]

  pub remove-AllDiffer : (n : ℕ) (l : List (Element Cert)) → AllDiffer l → AllDiffer (remove n l)
  unfolding remove
  remove-AllDiffer n [] h = tt
  remove-AllDiffer n (e ∷ l) h = elim (Bool-cases (nat_beq e.number n)) [
    | inl s ↦ rw s h.1
    | inr d ↦ rw d (All-remove (Differs e) n l h.0, remove-AllDiffer n l h.1)
  ]

  -- An element that a predicate rules out is not found.
  pub element_of-All :
      (P : Element Cert → Type 0) (l : List (Element Cert)) (h : Bytes) (e : Element Cert)
      → All P l
      → element_of l h ≡ some e
      → P e
  unfolding element_of
  element_of-All P [] h e a q = cc (q)
  element_of-All P (f ∷ l) h e a q = elim (Bool-cases (f.hostname == h)) [
    | inl s ↦ subst P (some_injective (rw s at q)) a.0
    | inr n ↦ element_of-All P l h e a.1 (rw n at q)
  ]

  delete-absent :
      (l : List (Element Cert)) (h : Bytes)
      → All (λ f. f.hostname ≢ h) l
      → delete (view l) h ≡ view l
  unfolding delete
  delete-absent [] h a = refl
  delete-absent (f ∷ l) h a = ground (arith, delete-absent l h a.1, a.0, bytes_beq_iff f.hostname h)

  -- Removing an element of the list is deleting its hostname.
  pub view-remove :
      (l : List (Element Cert)) (h : Bytes) (e : Element Cert)
      → AllDiffer l
      → element_of l h ≡ some e
      → view (remove e.number l) ≡ delete (view l) h
  unfolding remove delete element_of
  view-remove [] h e d q = refl
  view-remove (f ∷ l) h e d q = elim (Bool-cases (f.hostname == h)) [
    | inl s ↦
        let same : f ≡ e = some_injective (rw s at q) in
        let fh = (bytes_beq_iff f.hostname h).0 s in
        let gone = delete-absent l h (All-map (Differs f) _ l (λ x p r. p.0 (r ∙ sym fh)) d.0) in
        subst (λ x. view (remove x.number (f ∷ l)) ≡ delete (view (f ∷ l)) h) same
          (rw (s, (nat_beq_iff f.number f.number).1 refl) (sym gone))
    | inr n ↦
        let q' : element_of l h ≡ some e = rw n at q in
        let other = (element_of-All (Differs f) l h e d.0 q').1 in
        let ne : nat_beq f.number e.number ≡ false = ground arith in
        rw (ne, n) (ap (λ t. (f.hostname, f.cert) ∷ t) (view-remove l h e d.1 q'))
  ]

  element_of-absent :
      (l : List (Element Cert)) (h : Bytes) → All (λ f. f.hostname ≢ h) l → element_of l h ≡ none
  unfolding element_of
  element_of-absent [] h a = refl
  element_of-absent (f ∷ l) h a =
      ground (arith, element_of-absent l h a.1, a.0, bytes_beq_iff f.hostname h)

  pub element_of-remove :
      (l : List (Element Cert)) (h k : Bytes) (e : Element Cert)
      → AllDiffer l
      → element_of l h ≡ some e
      → element_of (remove e.number l) k ≡ (if h == k then none else element_of l k)
  unfolding remove element_of
  element_of-remove [] h k e d q = cc (q)
  element_of-remove (f ∷ l) h k e d q = elim (Bool-cases (f.hostname == h)) [
    | inl s ↦
        let same : f ≡ e = some_injective (rw s at q) in
        let fh = (bytes_beq_iff f.hostname h).0 s in
        let gone =
          element_of-absent l h (All-map (Differs f) _ l (λ x p r. p.0 (r ∙ sym fh)) d.0) in
        subst
          (λ x.
            element_of (remove x.number (f ∷ l)) k
            ≡ (if h == k then none else element_of (f ∷ l) k))
          same
          (rw ((nat_beq_iff f.number f.number).1 refl)
            (ground (arith, gone, fh, bytes_beq_iff f.hostname k, bytes_beq_iff h k)))
    | inr n ↦
        let q' : element_of l h ≡ some e = rw n at q in
        let other = (element_of-All (Differs f) l h e d.0 q').1 in
        let ne : nat_beq f.number e.number ≡ false = ground arith in
        rw ne (
          ground (
            arith,
            n,
            element_of-remove l h k e d.1 q',
            bytes_beq_iff f.hostname k,
            bytes_beq_iff h k,
            bytes_beq_iff f.hostname h,
          ))
  ]

  pub holds-element_of :
      (l : List (Element Cert)) (h : Bytes) (e : Element Cert)
      → element_of l h ≡ some e
      → holds e.number l ≡ true
  unfolding holds element_of
  holds-element_of [] h e q = cc (q)
  holds-element_of (f ∷ l) h e q = elim (Bool-cases (f.hostname == h)) [
    | inl s ↦
        subst (λ x. holds x.number (f ∷ l) ≡ true) (some_injective (rw s at q))
          (rw ((nat_beq_iff f.number f.number).1 refl) refl)
    | inr n ↦ let r = holds-element_of l h e (rw n at q) in ground arith
  ]

  pub length-remove :
      (l : List (Element Cert)) (n : ℕ) → holds n l ≡ true → suc (length (remove n l)) ≡ length l
  unfolding holds remove
  length-remove [] n h = cc (h)
  length-remove (f ∷ l) n h = ground (arith, length-remove l n)

  pub back-element_of :
      (l : List (Element Cert)) (e : Element Cert)
      → AllDiffer l
      → back l ≡ some e
      → element_of l e.hostname ≡ some e
  unfolding back element_of
  back-element_of [] e d b = cc (b)
  back-element_of (f ∷ []) e d b =
      subst (λ x. element_of (f ∷ []) x.hostname ≡ some x) (some_injective b)
        (rw (beq_self f.hostname) refl)
  back-element_of (f ∷ g ∷ l) e d b =
      let q = back-element_of (g ∷ l) e d.1 b in
      let other = (element_of-All (Differs f) (g ∷ l) e.hostname e d.0 q).0 in
      ground (arith, q, other, bytes_beq_iff f.hostname e.hostname)

  pub delete-back :
      (l : List (Element Cert)) (e : Element Cert) (n : ℕ)
      → AllDiffer l
      → back l ≡ some e
      → length l ≡ suc n
      → delete (view l) e.hostname ≡ take n (view l)
  unfolding back delete
  delete-back [] e n d b k = cc (b)
  delete-back (f ∷ []) e zero d b k =
      subst (λ x. delete (view (f ∷ [])) x.hostname ≡ []) (some_injective b)
        (rw (beq_self f.hostname) refl)
  delete-back (f ∷ []) e (suc n) d b k = absurd (omega (arith, k))
  delete-back (f ∷ g ∷ l) e zero d b k = absurd (omega (arith, k))
  delete-back (f ∷ g ∷ l) e (suc n) d b k =
      let q = back-element_of (g ∷ l) e d.1 b in
      let other = (element_of-All (Differs f) (g ∷ l) e.hostname e d.0 q).0 in
      let rest = delete-back (g ∷ l) e n d.1 b (omega (arith, k)) in
      rw (host_differs f.hostname e.hostname (λ r. other (sym r)))
        (ap (λ t. (f.hostname, f.cert) ∷ t) rest)

  pub back-some : (l : List (Element Cert)) → 1 ≤ length l → (e : Element Cert) × (back l ≡ some e)
  unfolding back
  back-some [] h = absurd (omega arith)
  back-some (e ∷ []) h = (e, refl)
  back-some (e ∷ f ∷ l) h = back-some (f ∷ l) (omega arith)

  -- The others differ from an element that is removed.
  pub remove-Differs :
      (l : List (Element Cert)) (h : Bytes) (e : Element Cert)
      → AllDiffer l
      → element_of l h ≡ some e
      → All (Differs e) (remove e.number l)
  unfolding remove element_of
  remove-Differs [] h e d q = tt
  remove-Differs (f ∷ l) h e d q = elim (Bool-cases (f.hostname == h)) [
    | inl s ↦
        subst (λ x. All (Differs x) (remove x.number (f ∷ l))) (some_injective (rw s at q))
          (rw ((nat_beq_iff f.number f.number).1 refl) d.0)
    | inr n ↦
        let q' : element_of l h ≡ some e = rw n at q in
        let other = element_of-All (Differs f) l h e d.0 q' in
        let ne : nat_beq f.number e.number ≡ false = ground (arith, other) in
        rw ne (((λ r. other.0 (sym r)), λ r. other.1 (sym r)), remove-Differs l h e d.1 q')
  ]

  pub length-view : (l : List (Element Cert)) → length (view l) ≡ length l
  length-view [] = refl
  length-view (e ∷ l) = ap suc (length-view l)
