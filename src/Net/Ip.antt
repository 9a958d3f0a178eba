-- ===== src/Net/Ip.antt =====
-- Go's `net.ParseIP`: dotted decimal, or colon-separated groups with at most one `::` and perhaps
-- a dotted decimal at the end. A zone (`%eth0`) is refused, as every other character is. The
-- result is the address in 16 bytes.
pub mod Alphabet
use lazyfwd.Base.{
  ℕ, zero, suc, ◌+◌, ◌-◌, ◌*◌, ◌/◌, ◌%◌, Bool, true, false, ◌&&◌, ◌||◌, Option, none, some, List,
  [], ◌∷◌, ◌++◌, Bytes, length, take, drop, ltb, leb, nat_beq, if◌then◌else◌, not, bytes_beq,
  bytes_eq, ◌==◌,
}

abbrev pub Ip : Type 0
Ip = List ℕ

abbrev pub zeros : ℕ → Bytes
zeros zero = []
zeros (suc n) = 0 ∷ zeros n

abbrev pub is_digit : ℕ → Bool
is_digit c = leb b'0' c && leb c b'9'

-- The loop of `parseIPv4Fields`: the fields so far, the value of the current one and its digits.
unfoldable pub v4_fields : Bytes → List ℕ → ℕ → ℕ → Option (List ℕ)
v4_fields [] fields val dig_len =
    if nat_beq (length fields) 3 && ltb 0 dig_len then some (fields ++ val ∷ []) else none
v4_fields (c ∷ s) fields val dig_len =
    let val' = val * 10 + (c - b'0') in
    let more = v4_fields s fields val' (dig_len + 1) in
    let next = v4_fields s (fields ++ val ∷ []) 0 0 in
    if is_digit c
    then (if (nat_beq dig_len 1 && nat_beq val 0) || ltb 255 val' then none else more)
    else if nat_beq c b'.'
    then (if nat_beq dig_len 0 || nat_beq (length fields) 3 then none else next)
    else none

-- An IPv4 address is mapped to ::ffff:a.b.c.d.
abbrev pub mapped : Option (List ℕ) → Option Ip
mapped none = none
mapped (some fields) = some (zeros 10 ++ (255 ∷ 255 ∷ fields))

-- The value of a hexadecimal digit.
unfoldable pub hex_value : ℕ → Option ℕ
hex_value c =
    if is_digit c
    then some (c - b'0')
    else if leb b'a' c && leb c b'f'
    then some (c - b'a' + 10)
    else if leb b'A' c && leb c b'F'
    then some (c - b'A' + 10)
    else none

-- One group: its length, its value and what follows; more than four digits are refused.
unfoldable pub hex_group : Bytes → ℕ → ℕ → Option (ℕ × ℕ × Bytes)
unfolding hex_value
hex_group [] off acc = some (off, acc, [])
hex_group (c ∷ s) off acc = elim (hex_value c) [
  | none ↦ some (off, acc, c ∷ s)
  | some v ↦ if ltb 3 off then none else hex_group s (off + 1) (acc * 16 + v)
]

abbrev pub group_bytes : ℕ → Bytes
group_bytes acc = acc / 256 ∷ acc % 256 ∷ []

-- The state of the loop of `parseIPv6`: the rest of the text, the bytes, the place of `::`.
abbrev pub Partial : Type 0
Partial = Bytes × Bytes × Option ℕ

-- The dotted decimal at the end of the text `s`.
unfoldable pub v4_tail : Bytes → Bytes → Option ℕ → Option Partial
unfolding v4_fields
v4_tail s ip ellipsis =
    if (elim ellipsis [ none ↦ not (nat_beq (length ip) 12) | some e ↦ false ])
      || ltb 16 (length ip + 4)
    then none
    else elim (v4_fields s [] 0 0) [ none ↦ none | some fields ↦ some ([], ip ++ fields, ellipsis) ]

-- What follows a group of `off` digits that was saved in `ip`, and the next round.
unfoldable pub v6_follow :
    (Bytes → Bytes → Option ℕ → Option Partial) → Bytes → Bytes → Option ℕ → Option Partial
v6_follow loop [] ip ellipsis = some ([], ip, ellipsis)
v6_follow loop (c ∷ []) ip ellipsis = none
v6_follow loop (c ∷ d ∷ s) ip ellipsis =
    if not (nat_beq c b':')
    then none
    else if nat_beq d b':'
    then (elim ellipsis [
      | some e ↦ none
      | none ↦ elim s [
        | [] ↦ some ([], ip, some (length ip))
        | x ∷ r ↦ loop (x ∷ r) ip (some (length ip))
      ]
    ])
    else loop (d ∷ s) ip ellipsis

abbrev pub begins_dot : Bytes → Bool
begins_dot [] = false
begins_dot (c ∷ s) = nat_beq c b'.'

-- The loop of `parseIPv6`: at most eight groups.
unfoldable pub v6_loop : ℕ → Bytes → Bytes → Option ℕ → Option Partial
unfolding hex_group v4_tail v6_follow
v6_loop zero s ip ellipsis = some (s, ip, ellipsis)
v6_loop (suc rounds) s ip ellipsis = elim (hex_group s 0 0) [
  | none ↦ none
  | some (off, acc, rest) ↦
      if nat_beq off 0
      then none
      else if begins_dot rest
      then v4_tail s ip ellipsis
      else v6_follow (v6_loop rounds) rest (ip ++ group_bytes acc) ellipsis
]

-- The bytes behind `::` move to the end.
unfoldable pub v6_expand : Partial → Option Ip
v6_expand (c ∷ s, ip, ellipsis) = none
v6_expand ([], ip, ellipsis) =
    if ltb (length ip) 16
    then (elim ellipsis [
      | none ↦ none
      | some e ↦ some (take e ip ++ (zeros (16 - length ip) ++ drop e ip))
    ])
    else (elim ellipsis [ none ↦ some ip | some e ↦ none ])

abbrev pub then_expand : Option Partial → Option Ip
then_expand none = none
then_expand (some p) = v6_expand p

-- The loop over all eight groups, and what follows it.
unfoldable pub run_v6 : Bytes → Option ℕ → Option Ip
unfolding v6_loop v6_expand
run_v6 s ellipsis = then_expand (v6_loop 8 s [] ellipsis)

-- `parseIPv6`: an ellipsis may lead, or be all.
unfoldable pub parse_v6 : Bytes → Option Ip
parse_v6 [] = run_v6 [] none
parse_v6 (c ∷ []) = run_v6 (c ∷ []) none
parse_v6 (c ∷ d ∷ s) =
    if nat_beq c b':' && nat_beq d b':'
    then (elim s [ [] ↦ some (zeros 16) | x ∷ r ↦ run_v6 (x ∷ r) (some 0) ])
    else run_v6 (c ∷ d ∷ s) none

-- `ParseAddr` looks for the first of `.`, `:` and `%`.
unfoldable pub parse_by : Bytes → Bytes → Option Ip
parse_by [] whole = none
parse_by (c ∷ s) whole =
    if nat_beq c b'.'
    then mapped (v4_fields whole [] 0 0)
    else if nat_beq c b':'
    then parse_v6 whole
    else if nat_beq c b'%'
    then none
    else parse_by s whole

unfoldable pub parse_ip : Bytes → Option Ip
parse_ip s = parse_by s s

-- `ip.To4() != nil`: ten zero bytes and two of ones.
unfoldable pub is_v4 : Ip → Bool
unfolding bytes_beq
is_v4 ip = take 12 ip == (zeros 10 ++ (255 ∷ 255 ∷ []))
