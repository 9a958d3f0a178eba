-- ===== src/Net/Ip/Alphabet.antt =====
-- Which characters an IP address is written in.
use lazyfwd.Base.{
  ℕ, zero, suc, ◌+◌, ◌-◌, ◌*◌, ◌≡◌, refl, Bool, true, ◌&&◌, ◌||◌, Option, none, some, List, [], ◌∷◌,
  ◌++◌, arith, Bytes, all_of, length, leb, nat_beq, Option-cases, inl, inr,
}
use lazyfwd.Net.Ip.{
  Ip, is_digit, v4_fields, hex_value, hex_group, Partial, v4_tail, v6_follow, v6_loop, v6_expand,
  parse_v6, parse_by, parse_ip, group_bytes, then_expand, run_v6, mapped,
}

-- Digits of either base, and the two separators.
unfoldable pub is_ip_char : ℕ → Bool
is_ip_char c =
    is_digit c
    || leb b'a' c && leb c b'f'
    || leb b'A' c && leb c b'F'
    || nat_beq c b'.'
    || nat_beq c b':'

unfoldable pub is_ip_text : Bytes → Bool
unfolding all_of
is_ip_text s = all_of is_ip_char s

v4_fields-alphabet :
    (s : Bytes) (fields : List ℕ) (val len : ℕ) (r : List ℕ)
    → v4_fields s fields val len ≡ some r
    → is_ip_text s ≡ true
unfolding v4_fields is_ip_text is_ip_char
v4_fields-alphabet [] fields val len r h = refl
v4_fields-alphabet (c ∷ s) fields val len r h = ground (
  arith,
  v4_fields-alphabet s fields (val * 10 + (c - b'0')) (len + 1) r,
  v4_fields-alphabet s (fields ++ val ∷ []) 0 0 r,
)

hex_value-alphabet : (c : ℕ) (v : ℕ) → hex_value c ≡ some v → is_ip_char c ≡ true
unfolding hex_value is_ip_char
hex_value-alphabet c v h = ground arith

-- What a group consumes is of the alphabet, so the text is if the rest is.
hex_group-alphabet :
    (s : Bytes) (off acc n v : ℕ) (rest : Bytes)
    → hex_group s off acc ≡ some (n, v, rest)
    → is_ip_text rest ≡ true
    → is_ip_text s ≡ true
unfolding hex_group is_ip_text
hex_group-alphabet [] off acc n v rest h k = refl
hex_group-alphabet (c ∷ s) off acc n v rest h k = elim (Option-cases (hex_value c)) [
  | inl e ↦ ground arith
  | inr (w, e) ↦
      ground
        (arith, hex_value-alphabet c w e, hex_group-alphabet s (off + 1) (acc * 16 + w) n v rest)
]

v4_tail-alphabet :
    (s ip : Bytes) (e : Option ℕ) (rest ip' : Bytes) (e' : Option ℕ)
    → v4_tail s ip e ≡ some (rest, ip', e')
    → is_ip_text s ≡ true
unfolding v4_tail
v4_tail-alphabet s ip e rest ip' e' h = elim (Option-cases (v4_fields s [] 0 0)) [
  | inl z ↦ ground arith
  | inr (fields, z) ↦ v4_fields-alphabet s [] 0 0 fields z
]

-- A loop whose input is of the alphabet if its rest is.
abbrev Keeps : (Bytes → Bytes → Option ℕ → Option Partial) → Type 0
Keeps loop =
    (s ip : Bytes) (e : Option ℕ) (rest ip' : Bytes) (e' : Option ℕ)
    → loop s ip e ≡ some (rest, ip', e')
    → is_ip_text rest ≡ true
    → is_ip_text s ≡ true

v6_follow-alphabet :
    (loop : Bytes → Bytes → Option ℕ → Option Partial) → Keeps loop → Keeps (v6_follow loop)
unfolding v6_follow is_ip_text is_ip_char
v6_follow-alphabet loop keep [] ip e rest ip' e' h k = refl
v6_follow-alphabet loop keep (c ∷ []) ip e rest ip' e' h k = cc
v6_follow-alphabet loop keep (c ∷ d ∷ []) ip none rest ip' e' h k =
    ground (arith, keep (d ∷ []) ip none rest ip' e')
v6_follow-alphabet loop keep (c ∷ d ∷ x ∷ s) ip none rest ip' e' h k =
    ground
      (arith, keep (d ∷ x ∷ s) ip none rest ip' e', keep (x ∷ s) ip (some (length ip)) rest ip' e')
v6_follow-alphabet loop keep (c ∷ d ∷ s) ip (some n) rest ip' e' h k =
    ground (arith, keep (d ∷ s) ip (some n) rest ip' e')

v6_loop-alphabet : (rounds : ℕ) → Keeps (v6_loop rounds)
unfolding v6_loop
v6_loop-alphabet zero s ip e rest ip' e' h k = ground arith
v6_loop-alphabet (suc n) s ip e rest ip' e' h k = elim (Option-cases (hex_group s 0 0)) [
  | inl z ↦ unfold v6_loop in ground arith
  | inr ((off, acc, more), z) ↦ ground (
    arith,
    hex_group-alphabet s 0 0 off acc more,
    v4_tail-alphabet s ip e rest ip' e',
    v6_follow-alphabet (v6_loop n) (v6_loop-alphabet n) more (ip ++ group_bytes acc) e rest ip' e',
  )
]

v6_expand_done : (p : Partial) (ip : Ip) → v6_expand p ≡ some ip → p.0 ≡ []
unfolding v6_expand
v6_expand_done (c ∷ s, b, e) ip h = cc
v6_expand_done ([], b, e) ip h = refl

run_then :
    (s : Bytes) (e : Option ℕ) (ip : Ip)
    → run_v6 s e ≡ some ip
    → then_expand (v6_loop 8 s [] e) ≡ some ip
unfolding run_v6
run_then s e ip h = h

nil_ip_text : is_ip_text [] ≡ true
unfolding is_ip_text
nil_ip_text = refl

expanded-alphabet :
    (s : Bytes) (e : Option ℕ) (ip : Ip) → run_v6 s e ≡ some ip → is_ip_text s ≡ true
expanded-alphabet s e ip h = elim (Option-cases (v6_loop 8 s [] e)) [
  | inl z ↦ cc (rw z at (run_then s e ip h))
  | inr ((rest, b', e'), z) ↦
      let d : rest ≡ [] = v6_expand_done (rest, b', e') ip (rw z at (run_then s e ip h)) in
      v6_loop-alphabet 8 s [] e rest b' e' z (rw d nil_ip_text)
]

parse_v6-alphabet : (s : Bytes) (ip : Ip) → parse_v6 s ≡ some ip → is_ip_text s ≡ true
unfolding parse_v6
parse_v6-alphabet [] ip h = nil_ip_text
parse_v6-alphabet (c ∷ []) ip h = expanded-alphabet (c ∷ []) none ip h
parse_v6-alphabet (c ∷ d ∷ []) ip h =
    unfold is_ip_text is_ip_char in ground (arith, expanded-alphabet (c ∷ d ∷ []) none ip)
parse_v6-alphabet (c ∷ d ∷ x ∷ s) ip h =
    unfold is_ip_text is_ip_char in
    ground (arith, expanded-alphabet (c ∷ d ∷ x ∷ s) none ip, expanded-alphabet (x ∷ s) (some 0) ip)

mapped-alphabet :
    (s : Bytes) (ip : Ip) → mapped (v4_fields s [] 0 0) ≡ some ip → is_ip_text s ≡ true
mapped-alphabet s ip h = elim (Option-cases (v4_fields s [] 0 0)) [
  | inl z ↦ cc (rw z at h)
  | inr (fields, z) ↦ v4_fields-alphabet s [] 0 0 fields z
]

parse_by-alphabet :
    (s whole : Bytes) (ip : Ip) → parse_by s whole ≡ some ip → is_ip_text whole ≡ true
unfolding parse_by
parse_by-alphabet [] whole ip h = cc
parse_by-alphabet (c ∷ s) whole ip h =
    ground
      (arith, mapped-alphabet whole ip, parse_v6-alphabet whole ip, parse_by-alphabet s whole ip)

-- An accepted address holds digits, `.` and `:` only.
pub parse_ip-alphabet : (s : Bytes) (ip : Ip) → parse_ip s ≡ some ip → is_ip_text s ≡ true
unfolding parse_ip
parse_ip-alphabet s ip h = parse_by-alphabet s s ip h
