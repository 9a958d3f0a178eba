-- ===== src/Sni/Safe.antt =====
-- `extractSNI` on any bytes: its indices, slices and fuel.
use lazyfwd.Base.{
  ℕ, zero, suc, ◌+◌, ◌-◌, ◌≤◌, ◌<◌, ◌≡◌, refl, Bool, true, false, not, ◌&&◌, some, [], ◌∷◌, arith,
  Bytes, length, get_elem?, get_or, take, drop, length-drop, ltb, leb, Result, ok, err, ◌>>=◌,
  Bool-cases, Result-cases, inl, inr,
}
use lazyfwd.Sni.{
  SniError, panic, out_of_fuel, be16, at, slice_from, slice, validate_tls_handshake,
  skip_compression, skip_ciphers, skip_to_extensions, read_name, scan_extension, find_sni_from,
  find_sni, extract_sni,
}

abbrev pub is_fault : SniError → Bool
is_fault panic = true
is_fault out_of_fuel = true
is_fault _ = false

abbrev pub is_proper {ℓ} : {A : Type ℓ} → Result SniError A → Bool
is_proper (ok a) = true
is_proper (err e) = not (is_fault e)

get_in_range : (s : Bytes) (i : ℕ) → i < length s → get_elem? s i ≡ some (get_or s i 0)
get_in_range [] i h = absurd (omega arith)
get_in_range (x ∷ s) zero h = refl
get_in_range (x ∷ s) (suc i) h = get_in_range s i (omega arith)

-- In range, an index and a slice give what they name.
pub at-ok : (s : Bytes) (i : ℕ) → i < length s → at s i ≡ ok (get_or s i 0)
unfolding at
at-ok s i h = rw (get_in_range s i h, at)

pub slice_from-ok : (s : Bytes) (n : ℕ) → n ≤ length s → slice_from s n ≡ ok (drop n s)
unfolding slice_from
slice_from-ok s n h = ground arith

pub slice-ok :
    (s : Bytes) (lo hi : ℕ)
    → lo ≤ hi
    → hi ≤ length s
    → slice s lo hi ≡ ok (take (hi - lo) (drop lo s))
unfolding slice
slice-ok s lo hi h k = ground arith

validate-proper : (s : Bytes) → is_proper (validate_tls_handshake s) ≡ true
unfolding validate_tls_handshake
validate-proper s = ground (
  arith,
  at-ok s 0,
  at-ok s 3,
  at-ok s 4,
  slice_from-ok s 5,
  at-ok (drop 5 s) 0,
  length-drop {0} 5 s,
)

-- Proper, and within the handshake.
abbrev Within : Bytes → Result SniError (ℕ × ℕ) → Type 0
Within handshake (ok (start, len)) = start ≤ length handshake
Within handshake (err e) = is_fault e ≡ false

skip_compression-Within : (h : Bytes) (pos : ℕ) → Within h (skip_compression h pos)
unfolding skip_compression
skip_compression-Within h pos = ground (
  arith,
  at-ok h pos,
  at-ok h (pos + (1 + get_or h pos 0)),
  at-ok h (pos + (1 + get_or h pos 0) + 1),
)

skip_ciphers-Within : (h : Bytes) (pos : ℕ) → Within h (skip_ciphers h pos)
unfolding skip_ciphers
skip_ciphers-Within h pos = elim (Bool-cases (ltb (length h) (pos + 2))) [
  | inl e ↦ rw e refl
  | inr e ↦
      rw (e, at-ok h pos (ground arith), at-ok h (pos + 1) (ground arith))
        (skip_compression-Within h _)
]

skip_to_extensions-Within : (h : Bytes) → Within h (skip_to_extensions h)
unfolding skip_to_extensions
skip_to_extensions-Within h = elim (Bool-cases (ltb (length h) (38 + 1))) [
  | inl e ↦ rw e refl
  | inr e ↦ rw (e, at-ok h 38 (ground arith)) (skip_ciphers-Within h _)
]

read_name-proper :
    (s : Bytes) (pos len : ℕ) → pos + len ≤ length s → is_proper (read_name s pos len) ≡ true
unfolding read_name
read_name-proper s pos len h =
    let t : Bytes = take (pos + len - pos) (drop pos s) in
    ground (
      arith,
      slice-ok s pos (pos + len),
      at-ok t 3,
      at-ok t 4,
      slice-ok t 5 (5 + be16 (get_or t 3 0) (get_or t 4 0)),
    )

scan_extension-proper :
    (next : ℕ → Result SniError Bytes) (s : Bytes) (pos : ℕ)
    → pos + 4 ≤ length s
    → ((n : ℕ) → pos + 4 ≤ n → n ≤ length s → is_proper (next n) ≡ true)
    → is_proper (scan_extension next s pos) ≡ true
unfolding scan_extension
scan_extension-proper next s pos h k =
    let len : ℕ = be16 (get_or s (pos + 2) 0) (get_or s (pos + 3) 0) in
    ground (
      arith,
      at-ok s pos,
      at-ok s (pos + 1),
      at-ok s (pos + 2),
      at-ok s (pos + 3),
      read_name-proper s (pos + 4) len,
      k (pos + 4 + len),
    )

-- Fuel above the bytes that are left is enough.
find_sni_from-proper :
    (fuel : ℕ) (s : Bytes) (ext_len pos : ℕ)
    → length s < fuel + pos
    → pos ≤ length s
    → is_proper (find_sni_from fuel s ext_len pos) ≡ true
unfolding find_sni_from
find_sni_from-proper zero s ext_len pos enough h = absurd (omega arith)
find_sni_from-proper (suc fuel) s ext_len pos enough h =
    elim (Bool-cases (leb (pos + 4) ext_len && leb (pos + 4) (length s))) [
      | inr e ↦ rw e refl
      | inl e ↦ rw e (
          scan_extension-proper (find_sni_from fuel s ext_len) s pos (ground arith)
            (λ n a b. find_sni_from-proper fuel s ext_len n (omega arith) b))
    ]

find_sni-proper : (s : Bytes) (ext_len : ℕ) → is_proper (find_sni s ext_len) ≡ true
unfolding find_sni
find_sni-proper s ext_len =
    find_sni_from-proper (suc (length s)) s ext_len 0 (omega arith) (omega arith)

found-proper :
    (h : Bytes) (r : Result SniError (ℕ × ℕ))
    → Within h r
    → is_proper (r >>= λ p. slice_from h p.0 >>= λ s. find_sni s p.1) ≡ true
found-proper h (ok (start, len)) w =
    rw (slice_from-ok h start w) (find_sni-proper (drop start h) len)
found-proper h (err e) w = rw w refl

-- For every sequence of bytes `extractSNI` returns a name or one of its own errors: no index and
-- no slice is out of range, and the loop over the extensions ends within its fuel.
pub extract_sni-proper : (input : Bytes) → is_proper (extract_sni input) ≡ true
unfolding extract_sni
extract_sni-proper input = elim (Result-cases (validate_tls_handshake input)) [
  | inl (h, e) ↦ rw e (found-proper h _ (skip_to_extensions-Within h))
  | inr (x, e) ↦ rw e (rw e at (validate-proper input))
]
