-- ===== src/Discovery/Best.antt =====
-- Which pod is chosen among those that run.
use lazyfwd.Base.{
  ◌≡◌, ◌⊎◌, refl, inl, inr, true, false, none, some, List, [], ◌∷◌, ◌++◌, Bytes, bytes_eq, All, ok,
  Bool-cases,
}
use lazyfwd.Base.Int.{int_eq}
use lazyfwd.Discovery.{Pod, is_ready, first_ready, pick_pod, find_ready_pod}

-- One element of a list that satisfies a predicate, with those before it.
pub record First {A : Type 0} (P Skipped : A → Type 0) (xs : List A) (x : A) : Type 0 where
  pub before : List A
  pub after : List A
  pub split : xs ≡ before ++ x ∷ after
  pub skipped : All Skipped before
  pub holds : P x

pub First-here : {A : Type 0} (P S : A → Type 0) (x : A) (xs : List A) → P x → First P S (x ∷ xs) x
First-here P S x xs p = record { before = []; after = xs; split = refl; skipped = tt; holds = p }

pub First-there :
    {A : Type 0} (P S : A → Type 0) (y x : A) (xs : List A)
    → S y
    → First P S xs x
    → First P S (y ∷ xs) x
First-there P S y x xs s f = record {
  before = y ∷ f.before;
  after = f.after;
  split = rw f.split refl;
  skipped = (s, f.skipped);
  holds = f.holds;
}

abbrev pub FirstReady : List Pod → Pod → Type 0
FirstReady = First (λ p. is_ready p ≡ true) (λ p. is_ready p ≡ false)

-- The pod that is taken of a list: the first ready one, or the very first where none is ready.
abbrev pub Best : List Pod → Pod → Type 0
Best pods p =
    FirstReady pods p
    ⊎ (All (λ q. is_ready q ≡ false) pods × ((rest : List Pod) × (pods ≡ p ∷ rest)))

first_ready-First :
    (pods : List Pod)
    → ((p : Pod) × (first_ready pods ≡ some p) × FirstReady pods p)
      ⊎ ((first_ready pods ≡ none) × All (λ q. is_ready q ≡ false) pods)
unfolding first_ready
first_ready-First [] = inr (refl, tt)
first_ready-First (p ∷ ps) = elim (Bool-cases (is_ready p)) [
  | inl r ↦ inl (p, rw r refl, First-here _ _ p ps r)
  | inr n ↦ elim (first_ready-First ps) [
    | inl (q, e, f) ↦ inl (q, rw n e, First-there _ _ p q ps n f)
    | inr (e, all) ↦ inr (rw n e, (n, all))
  ]
]

-- Where at least one pod is running, there is a choice: the first ready one, or the first of all
-- where none is ready.
pub find_ready_pod-Best :
    (p : Pod) (ps : List Pod) (service selector : Bytes)
    → (best : Pod) × (find_ready_pod (ok (p ∷ ps)) service selector ≡ ok best) × Best (p ∷ ps) best
unfolding find_ready_pod pick_pod
find_ready_pod-Best p ps service selector = elim (first_ready-First (p ∷ ps)) [
  | inl (q, e, f) ↦ (q, rw e refl, inl f)
  | inr (e, all) ↦ (p, rw e refl, inr (all, (ps, refl)))
]
