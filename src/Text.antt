-- ===== src/Text.antt =====
-- What the program uses of Go's `strings`, `strconv` and `fmt`, over bytes.
pub mod Search
pub mod Decimal
use lazyfwd.Base.{
  ℕ, zero, suc, ◌+◌, ◌-◌, ◌*◌, ◌/◌, ◌%◌, ◌^◌, ◌≡◌, refl, Bool, true, false, ◌&&◌, ◌||◌, Option,
  none, some, List, [], ◌∷◌, ◌++◌, Bytes, codes, length, take, drop, nat_beq, bytes_beq, ◌==◌,
  bytes_eq, map, ltb, leb, if◌then◌else◌, is_empty,
}
use lazyfwd.Base.Int.{ℤ, pos, negsuc}

-- `strings.HasPrefix(s, p)`, with the prefix first.
unfoldable pub has_prefix : Bytes → Bytes → Bool
has_prefix [] s = true
has_prefix (a ∷ p) [] = false
has_prefix (a ∷ p) (b ∷ s) = nat_beq a b && has_prefix p s

-- `strings.LastIndex(s, sep)`: `none` is -1.
unfoldable pub last_index : Bytes → Bytes → Option ℕ
unfolding has_prefix
last_index [] sep = if is_empty sep then some 0 else none
last_index (c ∷ s) sep = elim (last_index s sep) [
  | some i ↦ some (suc i)
  | none ↦ if has_prefix sep (c ∷ s) then some 0 else none
]

-- `strings.HasSuffix(s, t)`, with the suffix first.
unfoldable pub has_suffix : Bytes → Bytes → Bool
unfolding bytes_beq
has_suffix t s = leb (length t) (length s) && drop (length s - length t) s == t

-- `strings.TrimSuffix(s, t)`, with the suffix first.
unfoldable pub trim_suffix : Bytes → Bytes → Bytes
unfolding has_suffix
trim_suffix t s = if has_suffix t s then take (length s - length t) s else s

-- `strings.Contains(s, t)`, with the part first.
unfoldable pub contains : Bytes → Bytes → Bool
unfolding has_prefix
contains t [] = is_empty t
contains t (c ∷ s) = has_prefix t (c ∷ s) || contains t s

-- `strings.ToLower`, on ASCII.
abbrev pub to_lower : Bytes → Bytes
to_lower = map (λ c. if leb b'A' c && leb c b'Z' then c + 32 else c)

abbrev glue_head : ℕ → List Bytes → List Bytes
glue_head c [] = (c ∷ []) ∷ []
glue_head c (p ∷ ps) = (c ∷ p) ∷ ps

-- `strings.Split(s, sep)` for a separator of one byte: always one part at least.
unfoldable pub split : ℕ → Bytes → List Bytes
split sep [] = [] ∷ []
split sep (c ∷ s) = let rest = split sep s in if nat_beq c sep then [] ∷ rest else glue_head c rest

-- `strings.Join`
unfoldable pub join : Bytes → List Bytes → Bytes
join sep [] = []
join sep (p ∷ []) = p
join sep (p ∷ q ∷ ps) = p ++ (sep ++ join sep (q ∷ ps))

abbrev pub is_digit : ℕ → Bool
is_digit c = leb b'0' c && leb c b'9'

-- The value of a run of digits behind `n`; `none` where a byte is no digit.
unfoldable pub scan : ℕ → Bytes → Option ℕ
scan n [] = some n
scan n (c ∷ s) = let rest = scan (n * 10 + (c - b'0')) s in if is_digit c then rest else none

-- At least one digit.
unfoldable pub scan_digits : Bytes → Option ℕ
scan_digits [] = none
scan_digits (c ∷ s) = scan 0 (c ∷ s)

abbrev pub negate : ℕ → ℤ
negate zero = pos 0
negate (suc n) = negsuc n

-- The range of `int`, on 64 bits.
abbrev pub signed : Bool → Option ℕ → Option ℤ
signed minus none = none
signed true (some n) = if ltb (2 ^ 63) n then none else some (negate n)
signed false (some n) = if ltb n (2 ^ 63) then some (pos n) else none

-- `strconv.Atoi`: an optional sign, then decimal digits; out of the range of `int` it fails.
unfoldable pub atoi : Bytes → Option ℤ
atoi [] = none
atoi (c ∷ s) =
    if nat_beq c b'-'
    then signed true (scan_digits s)
    else if nat_beq c b'+'
    then signed false (scan_digits s)
    else signed false (scan_digits (c ∷ s))

-- The decimal digits of `n`, the last one behind the others.
unfoldable pub digits : ℕ → ℕ → Bytes
digits zero n = []
digits (suc f) n =
    let more = digits f (n / 10) ++ (b'0' + n % 10) ∷ [] in
    if ltb n 10 then (b'0' + n) ∷ [] else more

-- `%d` of a number that is not negative; a number has at most as many digits as its successor.
unfoldable pub format_nat : ℕ → Bytes
unfolding digits
format_nat n = digits (suc n) n

-- `%d`
unfoldable pub format_int : ℤ → Bytes
unfolding format_nat
format_int (pos n) = format_nat n
format_int (negsuc n) = b'-' ∷ format_nat (suc n)
