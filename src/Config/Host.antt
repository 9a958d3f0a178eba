-- ===== src/Config/Host.antt =====
-- internal/config/validate.go: which target hosts and image names are safe in a shell command.
use lazyfwd.Base.{
  ℕ, ◌≡◌, ◌≢◌, refl, Bool, true, false, not, ◌&&◌, ◌||◌, none, some, [], ◌∷◌, arith, Bytes, length,
  all_of, all_of_imp, ltb, leb, nat_beq, is_empty, if◌then◌else◌, Option-cases, inl, inr,
}
use lazyfwd.Net.Ip.{parse_ip}
use lazyfwd.Net.Ip.Alphabet.{is_ip_char, is_ip_text, parse_ip-alphabet}

-- `[a-zA-Z0-9]`
unfoldable pub is_alnum : ℕ → Bool
is_alnum c = leb b'a' c && leb c b'z' || leb b'A' c && leb c b'Z' || leb b'0' c && leb c b'9'

-- `[a-zA-Z0-9\-\.]`
unfoldable pub is_host_char : ℕ → Bool
unfolding is_alnum
is_host_char c = is_alnum c || nat_beq c b'-' || nat_beq c b'.'

-- `([a-zA-Z0-9\-\.]*[a-zA-Z0-9])?$`
ends_alnum : Bytes → Bool
unfolding is_host_char
ends_alnum [] = true
ends_alnum (c ∷ []) = is_alnum c
ends_alnum (c ∷ d ∷ s) = is_host_char c && ends_alnum (d ∷ s)

-- `hostnameRegex.MatchString`
unfoldable pub matches_hostname : Bytes → Bool
unfolding ends_alnum
matches_hostname [] = false
matches_hostname (c ∷ s) = is_alnum c && ends_alnum s

-- `IsValidTargetHost`
unfoldable pub is_valid_target_host : Bytes → Bool
unfolding matches_hostname
is_valid_target_host host = if is_empty host then false else (elim (parse_ip host) [
  | some ip ↦ true
  | none ↦ if ltb 253 (length host) then false else matches_hostname host
])

-- The characters that `IsValidImageName` refuses one by one.
unfoldable pub is_metachar : ℕ → Bool
is_metachar c =
    nat_beq c b';'
    || nat_beq c b'|'
    || nat_beq c b'&'
    || nat_beq c b'$'
    || nat_beq c b'`'
    || nat_beq c b'('
    || nat_beq c b')'
    || nat_beq c b'\''
    || nat_beq c b'"'
    || nat_beq c b' '
    || nat_beq c 10
    || nat_beq c 9

-- `[a-zA-Z0-9._\-/:@]`
unfoldable pub is_image_char : ℕ → Bool
unfolding is_alnum
is_image_char c =
    is_alnum c
    || nat_beq c b'.'
    || nat_beq c b'_'
    || nat_beq c b'-'
    || nat_beq c b'/'
    || nat_beq c b':'
    || nat_beq c b'@'

-- `imageNameRegex.MatchString`
unfoldable pub matches_image : Bytes → Bool
unfolding is_image_char all_of
matches_image [] = false
matches_image (c ∷ s) = is_alnum c && all_of is_image_char s

-- `IsValidImageName`
unfoldable pub is_valid_image_name : Bytes → Bool
is_valid_image_name image =
    if is_empty image || ltb 256 (length image)
    then false
    else if all_of (λ c. not (is_metachar c)) image
    then matches_image image
    else false

-- What a host may be written in: letters, digits, `-`, `.` and `:`.
unfoldable pub is_safe_char : ℕ → Bool
unfolding is_alnum
is_safe_char c = is_alnum c || nat_beq c b'-' || nat_beq c b'.' || nat_beq c b':'

ip_char-safe : (c : ℕ) → is_ip_char c ≡ true → is_safe_char c ≡ true
unfolding is_ip_char is_safe_char
ip_char-safe c h = ground arith

ends_alnum-safe : (s : Bytes) → ends_alnum s ≡ true → all_of is_safe_char s ≡ true
unfolding ends_alnum all_of is_safe_char is_host_char
ends_alnum-safe [] h = refl
ends_alnum-safe (c ∷ []) h = ground arith
ends_alnum-safe (c ∷ d ∷ s) h = ground (arith, ends_alnum-safe (d ∷ s))

matches_hostname-safe : (s : Bytes) → matches_hostname s ≡ true → all_of is_safe_char s ≡ true
unfolding matches_hostname
matches_hostname-safe [] h = cc
matches_hostname-safe (c ∷ s) h = unfold all_of is_safe_char in ground (arith, ends_alnum-safe s)

ip_text-safe : (s : Bytes) → is_ip_text s ≡ true → all_of is_safe_char s ≡ true
unfolding is_ip_text
ip_text-safe s h = all_of_imp is_ip_char is_safe_char s ip_char-safe h

-- A valid target host is not empty, and every byte of it is a letter, a digit, `-`, `.` or `:`.
pub target_host-safe :
    (host : Bytes)
    → is_valid_target_host host ≡ true
    → (host ≢ []) × (all_of is_safe_char host ≡ true)
unfolding is_valid_target_host
target_host-safe [] h = cc
target_host-safe (c ∷ s) h = (
  cc,
  elim (Option-cases (parse_ip (c ∷ s))) [
    | inl e ↦ ground (arith, matches_hostname-safe (c ∷ s))
    | inr (ip, e) ↦ ip_text-safe (c ∷ s) (parse_ip-alphabet (c ∷ s) ip e)
  ],
)

image_char-harmless : (c : ℕ) → is_image_char c ≡ true → not (is_metachar c) ≡ true
unfolding is_image_char is_metachar
image_char-harmless c h = ground arith

matches_image-harmless :
    (s : Bytes) → matches_image s ≡ true → all_of (λ c. not (is_metachar c)) s ≡ true
unfolding matches_image
matches_image-harmless [] h = cc
matches_image-harmless (c ∷ s) h =
    unfold all_of in
    ground (
      arith,
      alnum_image_char c,
      image_char-harmless c,
      all_of_imp is_image_char (λ c. not (is_metachar c)) s image_char-harmless,
    )
  where
    alnum_image_char : (c : ℕ) → is_alnum c ≡ true → is_image_char c ≡ true
    alnum_image_char c h = unfold is_image_char in ground arith

-- An image name is valid exactly when it has 1 to 256 bytes and matches the pattern: the loop over
-- shell metacharacters refuses nothing that the pattern lets through.
pub image_name_exact :
    (image : Bytes)
    → is_valid_image_name image
      ≡ (not (is_empty image) && leb (length image) 256 && matches_image image)
unfolding is_valid_image_name
image_name_exact [] = refl
image_name_exact (c ∷ s) = ground (arith, matches_image-harmless (c ∷ s))
