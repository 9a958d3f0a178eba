-- ===== src/JumpCommand.antt =====
-- internal/tcpserver/jump_handler.go, `buildForwardCommand`: the command line that a jump pod's
-- shell runs to reach the target.
mod Tests
use lazyfwd.Base.{
  ℕ, suc, ◌≡◌, ◌≢◌, ◌⊎◌, refl, inl, inr, Bool, true, false, not, ◌||◌, Option, none, some, List, [],
  ◌∷◌, ◌++◌, arith, Bytes, codes, all_of, all_of_imp, all_of-append, nat_beq, if◌then◌else◌, Result,
  ok, err, Bool-cases, Option-cases,
}
use lazyfwd.Base.Int.{ℤ, pos, negsuc}
use lazyfwd.Text.{format_int, format_nat, is_digit}
use lazyfwd.Text.Decimal.{format_nat-digits}
use lazyfwd.Net.Ip.{Ip, parse_ip, is_v4}
use lazyfwd.Config.{TargetConfig, JumpRouteConfig}
use lazyfwd.Config.Validate.{validate_jump_route}
use lazyfwd.Config.Validate.Routes.{validate_jump_route-IsJumpRoute}
use lazyfwd.Config.Host.{is_alnum, is_safe_char, is_valid_target_host, target_host-safe}

-- `[` and `]` around an IPv6 address
bracketed : Option Ip → Bytes → Bytes
bracketed none host = host
bracketed (some ip) host = if is_v4 ip then host else codes "[" ++ (host ++ codes "]")

-- `fmt.Sprintf("socat - TCP:%s:%d || nc %s %d", host, port, host, port)`
abbrev pub command : Bytes → Bytes → Bytes
command host port =
    codes "socat - TCP:"
    ++ (host ++ (codes ":" ++ (port ++ (codes " || nc " ++ (host ++ (codes " " ++ port))))))

pub data CommandError : Type 0 where
  invalid_target_host : Bytes → CommandError

-- `buildForwardCommand`
unfoldable pub build_forward_command : TargetConfig → Result CommandError Bytes
unfolding bracketed
build_forward_command t =
    if is_valid_target_host t.host
    then ok (command (bracketed (parse_ip t.host) t.host) (format_int t.port))
    else err (invalid_target_host t.host)

-- The characters of a host or a port in the command: none of them ends a word of a shell, quotes,
-- expands a variable or joins commands.
abbrev pub is_word_char : ℕ → Bool
is_word_char c = is_safe_char c || nat_beq c b'[' || nat_beq c b']'

abbrev pub IsV6 : Option Ip → Type 0
IsV6 none = ⊥
IsV6 (some ip) = is_v4 ip ≡ false

-- A command whose two variable parts are plain words: the host of the target, in brackets exactly
-- where it is an IPv6 address, and its port in decimal.
pub record IsCommand (t : TargetConfig) (cmd : Bytes) : Type 0 where
  pub host : Bytes
  pub port : Bytes
  pub built : cmd ≡ command host port
  pub host_plain : all_of is_word_char host ≡ true
  pub port_plain : all_of is_word_char port ≡ true
  pub host_kept :
      ((host ≡ t.host) × ¬ IsV6 (parse_ip t.host))
      ⊎ ((host ≡ codes "[" ++ (t.host ++ codes "]")) × IsV6 (parse_ip t.host))
  pub port_kept : port ≡ format_int t.port
  pub host_given : t.host ≢ []

bracketed_plain :
    (o : Option Ip) (host : Bytes)
    → all_of is_word_char host ≡ true
    → all_of is_word_char (bracketed o host) ≡ true
unfolding bracketed is_safe_char
bracketed_plain none host h = h
bracketed_plain (some ip) host h = elim (Bool-cases (is_v4 ip)) [
  | inl e ↦ rw e h
  | inr e ↦ rw e (
      all_of-append is_word_char (codes "[") (host ++ codes "]") (unfold all_of in refl)
        (all_of-append is_word_char host (codes "]") h (unfold all_of in refl)))
]

bracketed_kept :
    (o : Option Ip) (host : Bytes)
    → ((bracketed o host ≡ host) × ¬ IsV6 o)
      ⊎ ((bracketed o host ≡ codes "[" ++ (host ++ codes "]")) × IsV6 o)
unfolding bracketed
bracketed_kept none host = inl (refl, λ v. v)
bracketed_kept (some ip) host = elim (Bool-cases (is_v4 ip)) [
  | inl e ↦ inl (rw e refl, λ v. cc (e, v))
  | inr e ↦ inr (rw e refl, e)
]

digit_plain : (c : ℕ) → is_digit c ≡ true → is_word_char c ≡ true
unfolding is_safe_char is_alnum
digit_plain c h = ground arith

format_int-plain : (p : ℤ) → all_of is_word_char (format_int p) ≡ true
unfolding format_int
format_int-plain (pos n) =
    all_of_imp is_digit is_word_char (format_nat n) digit_plain (format_nat-digits n)
format_int-plain (negsuc n) =
    all_of-append is_word_char (codes "-") (format_nat (suc n)) (unfold all_of is_safe_char in refl)
      (all_of_imp is_digit is_word_char (format_nat (suc n)) digit_plain
        (format_nat-digits (suc n)))

-- A command that is built is the one line with the target's host, which is not empty, in brackets
-- exactly where it is an IPv6 address, and its port in decimal; both are plain words, so that no host
-- can bring a further command into the shell.
pub build_forward_command-IsCommand :
    (t : TargetConfig) (cmd : Bytes) → build_forward_command t ≡ ok cmd → IsCommand t cmd
unfolding build_forward_command
build_forward_command-IsCommand t cmd h = elim (Bool-cases (is_valid_target_host t.host)) [
  | inr e ↦ cc (rw e at h)
  | inl e ↦
      let (given, safe) = target_host-safe t.host e in
      record {
        host = bracketed (parse_ip t.host) t.host;
        port = format_int t.port;
        built = cc (rw e at h);
        host_plain =
            bracketed_plain (parse_ip t.host) t.host
              (all_of_imp is_safe_char is_word_char t.host (λ c k. ground arith) safe);
        port_plain = format_int-plain t.port;
        host_kept = bracketed_kept (parse_ip t.host) t.host;
        port_kept = refl;
        host_given = given;
      }
]

valid_host-command :
    (t : TargetConfig)
    → is_valid_target_host t.host ≡ true
    → (cmd : Bytes) × (build_forward_command t ≡ ok cmd)
unfolding build_forward_command
valid_host-command t v =
    (command (bracketed (parse_ip t.host) t.host) (format_int t.port), rw v refl)

-- For a jump route that the validation accepts, a command is built, whose two variable
-- parts are plain words: the host of the target, in brackets exactly where it is an IPv6 address, and
-- its port in decimal.
pub accepted_route-IsCommand :
    (r : JumpRouteConfig)
    → validate_jump_route r ≡ ok tt
    → (cmd : Bytes) × (build_forward_command r.target ≡ ok cmd) × IsCommand r.target cmd
accepted_route-IsCommand r h =
    let (cmd, e) = valid_host-command r.target (validate_jump_route-IsJumpRoute r h).host_valid in
    (cmd, e, build_forward_command-IsCommand r.target cmd e)
