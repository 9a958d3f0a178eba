-- ===== src/Text/Search.antt =====
-- What the searches of `Text` find.
use lazyfwd.Base.{
  ℕ, zero, suc, ◌+◌, ◌-◌, ◌≡◌, ◌≢◌, refl, ap, true, none, some, List, [], ◌∷◌, ◌++◌, arith, Bytes,
  length, take, drop, All, bytes_beq_iff, Bool-cases, Option-cases, inl, inr, length-append,
  drop-append_length, take-append_length, bytes_eq,
}
use lazyfwd.Text.{has_prefix, last_index, has_suffix, trim_suffix}

pub has_prefix_sound : (p s : Bytes) → has_prefix p s ≡ true → s ≡ p ++ drop (length p) s
unfolding has_prefix
has_prefix_sound [] s h = refl
has_prefix_sound (a ∷ p) [] h = cc
has_prefix_sound (a ∷ p) (b ∷ s) h = ground (arith, has_prefix_sound p s)

pub has_prefix-append : (p s : Bytes) → has_prefix p (p ++ s) ≡ true
unfolding has_prefix
has_prefix-append [] s = refl
has_prefix-append (a ∷ p) s = ground (arith, has_prefix-append p s)

cons_occurrence :
    (c : ℕ) (s sep : Bytes) (j : ℕ)
    → s ≡ take j s ++ (sep ++ drop (j + length sep) s)
    → c ∷ s ≡ take (suc j) (c ∷ s) ++ (sep ++ drop (suc j + length sep) (c ∷ s))
cons_occurrence c s sep j h =
    let e : suc j + length sep ≡ suc (j + length sep) = omega arith in rw e (ap (λ t. c ∷ t) h)

zero_occurrence :
    (s sep : Bytes) → has_prefix sep s ≡ true → s ≡ take 0 s ++ (sep ++ drop (0 + length sep) s)
zero_occurrence s sep h =
    let e : 0 + length sep ≡ length sep = omega arith in rw e (has_prefix_sound sep s h)

-- Where `last_index` finds its text, the text stands.
pub last_index_sound :
    (s sep : Bytes) (i : ℕ)
    → last_index s sep ≡ some i
    → s ≡ take i s ++ (sep ++ drop (i + length sep) s)
unfolding last_index
last_index_sound [] [] zero h = refl
last_index_sound [] [] (suc i) h = cc
last_index_sound [] (x ∷ sep) i h = cc
last_index_sound (c ∷ s) sep i h = elim (Option-cases (last_index s sep)) [
  | inl e ↦ elim (Bool-cases (has_prefix sep (c ∷ s))) [
    | inl here ↦ let z : i ≡ 0 = ground arith in rw z (zero_occurrence (c ∷ s) sep here)
    | inr away ↦ ground arith
  ]
  | inr (j, e) ↦
      let z : i ≡ suc j = ground arith in
      rw z (cons_occurrence c s sep j (last_index_sound s sep j e))
]

-- The last occurrence is found, if the text behind its first byte holds no other.
pub last_index-split :
    (a : Bytes) (c : ℕ) (p b : Bytes)
    → last_index (p ++ b) (c ∷ p) ≡ none
    → last_index (a ++ (c ∷ p ++ b)) (c ∷ p) ≡ some (length a)
unfolding last_index
last_index-split [] c p b h = rw (h, has_prefix-append (c ∷ p) b)
last_index-split (x ∷ a) c p b h = rw (last_index-split a c p b h)

pub has_suffix-append : (t a : Bytes) → has_suffix t (a ++ t) ≡ true
unfolding has_suffix
has_suffix-append t a =
    let e : length (a ++ t) - length t ≡ length a = omega (arith, length-append {0} a t) in
    rw (e, drop-append_length a t) (ground (arith, bytes_beq_iff t t, length-append {0} a t))

pub trim_suffix-append : (t a : Bytes) → trim_suffix t (a ++ t) ≡ a
unfolding trim_suffix
trim_suffix-append t a =
    let e : length (a ++ t) - length t ≡ length a = omega (arith, length-append {0} a t) in
    rw (fold_suffix t a, e) (take-append_length a t)
  where
    fold_suffix : (t a : Bytes) → has_suffix t (a ++ t) ≡ true
    fold_suffix = has_suffix-append

pub take-append-drop {ℓ} : {A : Type ℓ} (n : ℕ) (xs : List A) → take n xs ++ drop n xs ≡ xs
take-append-drop zero xs = refl
take-append-drop (suc n) [] = refl
take-append-drop (suc n) (x ∷ xs) = ap (λ t. x ∷ t) (take-append-drop n xs)

pub has_suffix_sound : (t s : Bytes) → has_suffix t s ≡ true → s ≡ trim_suffix t s ++ t
unfolding trim_suffix
has_suffix_sound t s h = ground (
  arith,
  take-append-drop (length s - length t) s,
  bytes_beq_iff (drop (length s - length t) s) t,
)

-- A byte that does not stand in a text begins no occurrence there.
pub last_index_absent : (c : ℕ) (p b : Bytes) → All (λ x. x ≢ c) b → last_index b (c ∷ p) ≡ none
unfolding last_index
last_index_absent c p [] h = refl
last_index_absent c p (x ∷ b) h = rw (last_index_absent c p b h.1) (ground (arith, h.0))
