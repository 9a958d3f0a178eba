-- ===== src/Text/Decimal.antt =====
-- Decimal numbers: what is printed is read back.
use lazyfwd.Base.{
  ℕ, zero, suc, ◌+◌, ◌-◌, ◌*◌, ◌/◌, ◌%◌, ◌^◌, ◌<◌, ◌≡◌, ◌≢◌, refl, true, Option, none, some, [],
  ◌∷◌, ◌++◌, arith, Bytes, all_of, all_of-append, ltb, lt→ltb, Bool-cases, inl, inr,
}
use lazyfwd.Base.Int.{pos}
use lazyfwd.Text.{is_digit, scan, scan_digits, atoi, digits, format_nat}

abbrev scan_on : Option ℕ → Bytes → Option ℕ
scan_on none t = none
scan_on (some v) t = scan v t

scan-append : (a : ℕ) (s t : Bytes) → scan a (s ++ t) ≡ scan_on (scan a s) t
unfolding scan
scan-append a [] t = refl
scan-append a (c ∷ s) t = elim (Bool-cases (is_digit c)) [
  | inl e ↦ rw e (scan-append (a * 10 + (c - b'0')) s t)
  | inr e ↦ rw e refl
]

scan_one : (a d : ℕ) → d < 10 → scan a ((b'0' + d) ∷ []) ≡ some (a * 10 + d)
unfolding scan
scan_one a d h = ground arith

scan-digits : (f n : ℕ) → n < f → scan 0 (digits f n) ≡ some n
unfolding digits
scan-digits zero n h = absurd (omega arith)
scan-digits (suc f) n h = elim (Bool-cases (ltb n 10)) [
  | inl e ↦ rw e (ground (arith, scan_one 0 n))
  | inr e ↦ rw e (
      rw
        (
          scan-append 0 (digits f (n / 10)) ((b'0' + n % 10) ∷ []),
          scan-digits f (n / 10) (ground arith),
        )
        (ground (arith, scan_one (n / 10) (n % 10))))
]

-- A printed number consists of digits, one at least.
digits_are : (f n : ℕ) → all_of is_digit (digits f n) ≡ true
unfolding digits all_of
digits_are zero n = refl
digits_are (suc f) n = elim (Bool-cases (ltb n 10)) [
  | inl e ↦ rw e (ground arith)
  | inr e ↦ rw e (
      all_of-append is_digit (digits f (n / 10)) ((b'0' + n % 10) ∷ []) (digits_are f (n / 10))
        (ground arith))
]

pub format_nat-digits : (n : ℕ) → all_of is_digit (format_nat n) ≡ true
unfolding format_nat
format_nat-digits n = digits_are (suc n) n

append-ne-nil : (s : Bytes) (c : ℕ) → s ++ c ∷ [] ≢ []
append-ne-nil [] c h = cc
append-ne-nil (x ∷ s) c h = cc

pub format_nat-ne-nil : (n : ℕ) → format_nat n ≢ []
unfolding format_nat
format_nat-ne-nil n h = elim (Bool-cases (ltb n 10)) [
  | inl e ↦ cc (rw e at h)
  | inr e ↦ append-ne-nil (digits n (n / 10)) (b'0' + n % 10) (rw e at h)
]

first_digit : (c : ℕ) (s : Bytes) → all_of is_digit (c ∷ s) ≡ true → is_digit c ≡ true
unfolding all_of
first_digit c s h = ground arith

atoi_unsigned :
    (s : Bytes) (n : ℕ)
    → s ≢ []
    → all_of is_digit s ≡ true
    → scan 0 s ≡ some n
    → n < 2 ^ 63
    → atoi s ≡ some (pos n)
unfolding atoi scan_digits
atoi_unsigned [] n ne d e h = absurd (ne refl)
atoi_unsigned (c ∷ s) n ne d e h = rw e (ground (arith, first_digit c s d, lt→ltb n (2 ^ 63) h))

-- Every number that fits an `int` is read back from its decimal print.
pub atoi-format_nat : (n : ℕ) → n < 2 ^ 63 → atoi (format_nat n) ≡ some (pos n)
atoi-format_nat n h =
    atoi_unsigned (format_nat n) n (format_nat-ne-nil n) (format_nat-digits n)
      (unfold format_nat in scan-digits (suc n) n (omega arith)) h
