-- ===== src/Config/Validate/Sound.antt =====
-- internal/config/validate.go: the whole of `Validate`, against the specification.
use lazyfwd.Base.{
  ◌≡◌, ◌⊎◌, refl, inl, inr, true, false, not, ◌&&◌, List, [], ◌∷◌, arith, All-map, is_empty, ◌==◌,
  bytes_eq, ok, map_err, Bool-cases, refuse-ok, bind-ok, map_err-ok,
}
use lazyfwd.Base.Int.{ℤ, pos, negsuc, int_eq, ltb_ℤ, leb_ℤ}
use lazyfwd.Config.{Config, current_api_version}
use lazyfwd.Config.Validate.{
  extract_port, validate_http_routes, validate_tcp_routes, validate_jump_routes,
  validate_tcp_entries, validate_tcp, validate,
}
use lazyfwd.Config.Validate.Spec.{IsPositive, IsNonnegative, keys, IsTcp, IsValid}
use lazyfwd.Config.Validate.Routes.{not_is_empty, known_or_empty, http_routes_sound}
use lazyfwd.Config.Validate.Ports.{tcp_routes_sound, jump_routes_sound, Distinct-append}

validate_tcp_entries-IsTcp :
    (c : Config) → validate_tcp_entries c ≡ ok tt → (http_port : ℤ) × IsTcp c http_port
unfolding validate_tcp_entries
validate_tcp_entries-IsTcp c h =
    let (a, h1) = refuse-ok (ltb_ℤ c.tcp.idle_timeout (pos 0)) _ _ h in
    let (http_port, b, h2) = bind-ok (map_err _ (extract_port c.http.listen_addr)) _ h1 in
    let (seen, d, h3) = bind-ok (validate_tcp_routes http_port c.tcp.k8s.routes []) _ h2 in
    let (all, e, h4) = bind-ok (validate_jump_routes http_port c.tcp.k8s.jump seen) _ h3 in
    let (entries, reg) = tcp_routes_sound http_port c.tcp.k8s.routes [] seen d in
    let (jumps, reg') = jump_routes_sound http_port c.tcp.k8s.jump seen all e in
    (
      http_port,
      record {
        timeout_valid = nonnegative c.tcp.idle_timeout a;
        port_known = map_err-ok _ _ b;
        routes_valid = entries;
        jumps_valid = jumps;
        ports_distinct =
            Distinct-append _ _ reg.distinct reg'.distinct
              (All-map _ _ (keys c.tcp.k8s.jump) (λ j e. (reg.kept j e).1) reg'.fresh);
      },
    )
  where
    nonnegative : (t : ℤ) → ltb_ℤ t (pos 0) ≡ false → IsNonnegative t
    nonnegative (pos n) h = tt
    nonnegative (negsuc n) h = cc

positive : (t : ℤ) → leb_ℤ t (pos 0) ≡ false → IsPositive t
positive (pos n) h = ground arith
positive (negsuc n) h = cc

both_empty {ℓ κ} :
    {A : Type ℓ} {B : Type κ} (a : List A) (b : List B)
    → (is_empty a && is_empty b) ≡ true
    → (a ≡ []) × (b ≡ [])
both_empty [] [] h = (refl, refl)
both_empty [] (y ∷ b) h = cc
both_empty (x ∷ a) b h = cc

validate_tcp-IsTcp :
    (c : Config)
    → validate_tcp c ≡ ok tt
    → ((c.tcp.k8s.routes ≡ []) × (c.tcp.k8s.jump ≡ [])) ⊎ ((http_port : ℤ) × IsTcp c http_port)
unfolding validate_tcp
validate_tcp-IsTcp c h = elim (Bool-cases (is_empty c.tcp.k8s.routes && is_empty c.tcp.k8s.jump)) [
  | inl e ↦ inl (both_empty _ _ e)
  | inr e ↦ inr (validate_tcp_entries-IsTcp c (rw e at h))
]

-- A configuration that `Validate` accepts satisfies the specification: version, listening address
-- and timeout, every HTTP route, and, if there are TCP or jump entries, every one of these, with
-- local ports in range, apart from the port of HTTP, and all different across the two maps.
pub validate_sound : (c : Config) → validate c ≡ ok tt → IsValid c
unfolding validate
validate_sound c h =
    let (a, h1) =
      refuse-ok (not (is_empty c.api_version) && not (c.api_version == current_api_version)) _ _
        h in
    let (b, h2) = refuse-ok (is_empty c.http.listen_addr) _ _ h1 in
    let (d, h3) = refuse-ok (leb_ℤ c.http.idle_timeout (pos 0)) _ _ h2 in
    let (u, e, h4) = bind-ok (validate_http_routes c.http.k8s.routes) _ h3 in
    record {
      version_known = known_or_empty c.api_version current_api_version a;
      listen_given = not_is_empty c.http.listen_addr b;
      timeout_valid = positive c.http.idle_timeout d;
      routes_valid = http_routes_sound c.http.k8s.routes e;
      tcp_valid = validate_tcp-IsTcp c h4;
    }
