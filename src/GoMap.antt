-- ===== src/GoMap.antt =====
-- Go's built-in `map` as an association list, in the order in which one `range` over it runs. Go
-- leaves that order open, so what is stated of every list is stated of every order.
use lazyfwd.Base.{
  ◌≡◌, ◌≢◌, refl, ap, Option, none, some, List, [], ◌∷◌, arith, Eq, ◌==◌, beq_self, if◌then◌else◌,
  Bool-cases, inl, inr,
}

abbrev pub GoMap {ℓ κ} : Type ℓ → Type κ → Type (ℓ ⊔ κ)
GoMap K V = List (K × V)

abbrev pub keys {ℓ κ} : {K : Type ℓ} {V : Type κ} → GoMap K V → List K
keys [] = []
keys ((k, v) ∷ m) = k ∷ keys m

module _ {ℓ κ} {K : Type ℓ} {V : Type κ} ⦃e : Eq K⦄ where
  -- `v, ok := m[k]`
  unfoldable pub lookup : GoMap K V → K → Option V
  lookup [] k = none
  lookup ((j, v) ∷ m) k = if j == k then some v else lookup m k

  -- `delete(m, k)`
  unfoldable pub delete : GoMap K V → K → GoMap K V
  delete [] k = []
  delete ((j, v) ∷ m) k = let rest = delete m k in if j == k then rest else (j, v) ∷ rest

  -- `m[k] = v`
  unfoldable pub insert : GoMap K V → K → V → GoMap K V
  unfolding delete
  insert m k v = (k, v) ∷ delete m k

  -- No key stands twice.
  abbrev pub IsMap : GoMap K V → Type κ
  IsMap [] = Unit
  IsMap ((k, v) ∷ m) = (lookup m k ≡ none) × IsMap m

  pub lookup-delete :
      (m : GoMap K V) (k j : K) → lookup (delete m k) j ≡ (if k == j then none else lookup m j)
  unfolding lookup delete
  lookup-delete [] k j = ground arith
  lookup-delete ((i, v) ∷ m) k j =
      ground (arith, lookup-delete m k j, e.beq_iff i k, e.beq_iff i j, e.beq_iff k j)

  pub lookup-insert :
      (m : GoMap K V) (k j : K) (v : V)
      → lookup (insert m k v) j ≡ (if k == j then some v else lookup m j)
  unfolding lookup insert
  lookup-insert m k j v = ground (arith, lookup-delete m k j)

  pub delete-IsMap : (m : GoMap K V) (k : K) → IsMap m → IsMap (delete m k)
  unfolding delete
  delete-IsMap [] k h = tt
  delete-IsMap ((i, v) ∷ m) k h = elim (Bool-cases (i == k)) [
    | inl same ↦ rw same (delete-IsMap m k h.1)
    | inr other ↦ rw other (ground (arith, lookup-delete m k i, h), delete-IsMap m k h.1)
  ]

  pub insert-IsMap : (m : GoMap K V) (k : K) (v : V) → IsMap m → IsMap (insert m k v)
  unfolding insert
  insert-IsMap m k v h = (rw (lookup-delete m k k, beq_self k), delete-IsMap m k h)

  pub lookup-insert_self : (m : GoMap K V) (k : K) (v : V) → lookup (insert m k v) k ≡ some v
  lookup-insert_self m k v = rw (lookup-insert m k k v, beq_self k)

  pub delete-missing : (m : GoMap K V) (k : K) → lookup m k ≡ none → delete m k ≡ m
  unfolding delete lookup
  delete-missing [] k h = refl
  delete-missing ((i, v) ∷ m) k h = elim (Bool-cases (i == k)) [
    | inl same ↦ cc (rw same at h)
    | inr other ↦ rw other (ap (λ t. (i, v) ∷ t) (delete-missing m k (rw other at h)))
  ]

  pub insert-missing :
      (m : GoMap K V) (k : K) (v : V) → lookup m k ≡ none → insert m k v ≡ (k, v) ∷ m
  unfolding insert
  insert-missing m k v h = ap (λ t. (k, v) ∷ t) (delete-missing m k h)

  pub lookup-insert_ne :
      (m : GoMap K V) (k j : K) (v : V) → k ≢ j → lookup (insert m k v) j ≡ lookup m j
  lookup-insert_ne m k j v ne = ground (arith, lookup-insert m k j v, e.beq_iff k j)

  pub lookup-delete_self : (m : GoMap K V) (k : K) → lookup (delete m k) k ≡ none
  lookup-delete_self m k = rw (lookup-delete m k k, beq_self k)

pub ruleset map_laws = (lookup-insert, lookup-delete, lookup-insert_self, lookup-delete_self)
