-- ===== src/Sni/Extensions.antt =====
-- The search for the name among encoded extensions.
use lazyfwd.Base.{
  ℕ, zero, suc, ◌+◌, ◌-◌, ◌/◌, ◌%◌, ◌<◌, ◌≡◌, ◌≢◌, refl, sym, ap, subst, ◌∙◌, false, List, [], ◌∷◌,
  ◌++◌, append_assoc, arith, Bytes, length, length-append, get_elem?, take, take-append_length,
  drop-append_length, All, ltb, nat_beq, if◌then◌else◌, Result, ok,
}
use lazyfwd.Sni.{SniError, be16, at, slice, read_name, scan_extension, find_sni_from, find_sni}
use lazyfwd.Sni.Safe.{slice-ok}
use lazyfwd.Sni.Hello.{
  Extension, encode_extension, encode_extensions, name_list, server_name, Hello, IsHello,
  hello_extensions,
}

-- Two bytes give back their number.
pub be16-parts : (n : ℕ) → be16 (n / 256) (n % 256) ≡ n
be16-parts n = omega arith

get-append : (pre s : Bytes) (n : ℕ) → get_elem? (pre ++ s) (length pre + n) ≡ get_elem? s n
get-append [] s n = let e : 0 + n ≡ n = omega arith in ap (λ k. get_elem? s k) e
get-append (x ∷ pre) s n =
    let e : suc (length pre) + n ≡ suc (length pre + n) = omega arith in rw e (get-append pre s n)

-- Reading behind a prefix.
pub at-append : (pre s : Bytes) (n pos : ℕ) → pos ≡ length pre + n → at (pre ++ s) pos ≡ at s n
unfolding at
at-append pre s n pos e = rw e (rw (get-append pre s n, at) refl)

slice-append :
    (pre s t : Bytes) (lo hi : ℕ)
    → lo ≡ length pre
    → hi ≡ length pre + length s
    → slice (pre ++ (s ++ t)) lo hi ≡ ok s
slice-append pre s t lo hi a b =
    rw
      (
        slice-ok (pre ++ (s ++ t)) lo hi (omega arith)
            (omega (arith, length-append {0} pre (s ++ t), length-append {0} s t)),
        a,
        drop-append_length pre (s ++ t),
      )
      (let e : hi - length pre ≡ length s = omega arith in rw (e, take-append_length s t))

take_all : (s : Bytes) → take (length s) s ≡ s
take_all [] = refl
take_all (x ∷ s) = ap (λ t. x ∷ t) (take_all s)

slice_name :
    (name : Bytes)
    → slice (name_list name) 5 (5 + be16 (length name / 256) (length name % 256)) ≡ ok name
slice_name name =
    let n : ℕ = be16 (length name / 256) (length name % 256) in
    let e : 5 + n - 5 ≡ length name = omega arith in
    rw (slice-ok (name_list name) 5 (5 + n) (omega arith) (omega arith), e, take_all name)

read_name-encoded :
    (pre t name : Bytes) (pos : ℕ)
    → pos ≡ length pre
    → read_name (pre ++ (name_list name ++ t)) pos (length (name_list name)) ≡ ok name
unfolding read_name at
read_name-encoded pre t name pos e =
    rw (slice-append pre (name_list name) t pos (pos + length (name_list name)) e (omega arith))
      (ground (arith, slice_name name, be16-parts (length name)))

-- One extension at a position: its type and its length decide how the loop goes on.
scan_extension-encoded :
    (next : ℕ → Result SniError Bytes) (pre t : Bytes) (x : Extension) (pos : ℕ)
    → pos ≡ length pre
    → scan_extension next (pre ++ (encode_extension x ++ t)) pos ≡ (
        if nat_beq (be16 x.kind_hi x.kind_lo) 0
        then read_name (pre ++ (encode_extension x ++ t)) (pos + 4) (length x.body)
        else next (pos + 4 + length x.body))
unfolding scan_extension
scan_extension-encoded next pre t x pos e =
    let s : Bytes = encode_extension x ++ t in
    rw
      (
        at-append pre s 0 pos (omega arith),
        at-append pre s 1 (pos + 1) (omega arith),
        at-append pre s 2 (pos + 2) (omega arith),
        at-append pre s 3 (pos + 3) (omega arith),
      )
      (unfold at in rw (be16-parts (length x.body), fits) refl)
  where
    fits : ltb (length (pre ++ (encode_extension x ++ t))) (pos + 4 + length x.body) ≡ false
    fits = ground (
      arith,
      length-append {0} pre (encode_extension x ++ t),
      length-append {0} (encode_extension x) t,
    )

module _ (name after : Bytes) where
  -- The bytes from the server's name on.
  rest : Bytes
  rest = encode_extension (server_name name) ++ after

  room :
      (pre : Bytes) (x : Extension) (t : Bytes)
      → length pre + 4 + length x.body + length t ≡ length (pre ++ (encode_extension x ++ t))
  room pre x t = omega (
    arith,
    length-append {0} pre (encode_extension x ++ t),
    length-append {0} (encode_extension x) t,
  )

  -- The body of the loop runs where four bytes are left.
  enters :
      (fuel : ℕ) (pre t : Bytes) (x : Extension)
      → let s = pre ++ (encode_extension x ++ t) in
        find_sni_from (suc fuel) s (length s) (length pre)
        ≡ scan_extension (find_sni_from fuel s (length s)) s (length pre)
  unfolding find_sni_from
  enters fuel pre t x = ground (arith, room pre x t)

  find_sni_from-encoded :
      (xs : List Extension) (fuel : ℕ) (pre s : Bytes) (pos : ℕ)
      → s ≡ pre ++ (encode_extensions xs ++ rest)
      → pos ≡ length pre
      → length s < fuel + pos
      → All (λ x. be16 x.kind_hi x.kind_lo ≢ 0) xs
      → find_sni_from fuel s (length s) pos ≡ ok name
  unfolding rest
  find_sni_from-encoded xs zero pre s pos e p enough others =
      absurd (omega (arith, ap length e, length-append {0} pre (encode_extensions xs ++ rest)))
  find_sni_from-encoded [] (suc fuel) pre s pos e p enough others =
      rw
        (
          e,
          p,
          enters fuel pre after (server_name name),
          scan_extension-encoded (find_sni_from fuel _ _) pre after (server_name name) (length pre)
              refl,
        )
        (subst (λ u. read_name u (length pre + 4) (length (name_list name)) ≡ ok name)
          (append_assoc pre head (name_list name ++ after))
          (read_name-encoded (pre ++ head) after name (length pre + 4)
            (omega (arith, length-append {0} pre head))))
    where
      head : Bytes
      head = 0 ∷ 0 ∷ length (name_list name) / 256 ∷ length (name_list name) % 256 ∷ []
  find_sni_from-encoded (x ∷ xs) (suc fuel) pre s pos e p enough others =
      let t : Bytes = encode_extensions xs ++ rest in
      let e' : s ≡ pre ++ (encode_extension x ++ t) =
        e ∙ ap (λ u. pre ++ u) (append_assoc (encode_extension x) (encode_extensions xs) rest) in
      let ih =
        find_sni_from-encoded xs fuel (pre ++ encode_extension x) s (pos + 4 + length x.body)
          (e' ∙ sym (append_assoc pre (encode_extension x) t))
          (omega (arith, length-append {0} pre (encode_extension x))) (omega arith) others.1 in
      let other : nat_beq (be16 x.kind_hi x.kind_lo) 0 ≡ false = ground (arith, others.0) in
      rw
        (
          e',
          p,
          enters fuel pre t x,
          scan_extension-encoded (find_sni_from fuel _ _) pre t x (length pre) refl,
          other,
        )
        (rw (e', p) at ih)

pub find_sni-encoded :
    (h : Hello)
    → IsHello h
    → find_sni (hello_extensions h) (length (hello_extensions h)) ≡ ok h.name
unfolding find_sni rest
find_sni-encoded h k =
    let s : Bytes = hello_extensions h in
    find_sni_from-encoded h.name h.after h.before (suc (length s)) [] s 0 refl refl (omega arith)
      k.before_others
