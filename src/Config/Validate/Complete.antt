-- ===== src/Config/Validate/Complete.antt =====
-- internal/config/validate.go: which configurations `Validate` accepts, against the specification.
use lazyfwd.Base.{
  ◌≡◌, ◌≢◌, ◌⊎◌, ◌↔◌, refl, sym, ◌∙◌, inl, inr, false, not, ◌&&◌, Option, none, some, List, [], ◌∷◌,
  arith, All, All-map, Bytes, codes, is_empty, ◌==◌, bytes_eq, bytes_beq_iff, ok, Bool-cases,
  Result,
}
use lazyfwd.Base.Int.{ℤ, pos, negsuc, int_eq, int_beq_iff, ltb_ℤ, leb_ℤ}
use lazyfwd.GoMap.{GoMap, lookup, insert, lookup-insert_ne}
use lazyfwd.Config.{
  Config, K8sRouteConfig, TcpRouteConfig, JumpRouteConfig, ViaConfig, CreateConfig,
  current_api_version, is_bad_port,
}
use lazyfwd.Config.Errors.{Source, routes, jump}
use lazyfwd.Config.Validate.{
  claim, validate_local_port, validate_route_base, validate_create, validate_target,
  validate_jump_route, validate_http_routes, validate_tcp_routes, validate_jump_routes,
  validate_tcp_entries, validate_tcp, validate,
}
use lazyfwd.Config.Validate.Spec.{
  IsPort, IsPositive, IsNonnegative, OneOf, IsRoute, IsCreate, IsJumpRoute, IsLocalPort, HttpEntry,
  TcpEntry, JumpEntry, keys, Lacks, Distinct, IsTcp, IsValid,
}
use lazyfwd.Config.Validate.Ports.{Distinct-split, crossed, All-always}
use lazyfwd.Config.Validate.Sound.{validate_sound}

given : {A : Type 0} (s : List A) → s ≢ [] → is_empty s ≡ false
given [] h = absurd (h refl)
given (x ∷ s) h = refl

port_good : (p : ℤ) → IsPort p → is_bad_port p ≡ false
unfolding is_bad_port
port_good (pos n) h = ground arith
port_good (negsuc n) h = absurd h

one_given :
    (a b : Bytes)
    → OneOf a b
    → ((is_empty a && is_empty b) ≡ false) × ((not (is_empty a) && not (is_empty b)) ≡ false)
one_given a b (inl (x, y)) = rw (given a x, y) (refl, refl)
one_given a b (inr (x, y)) = rw (given b y, x) (refl, refl)

route_base_complete :
    (context namespace service pod : Bytes) (port : ℤ)
    → IsRoute context namespace service pod port
    → validate_route_base context namespace service pod port ≡ ok tt
unfolding validate_route_base
route_base_complete c n s p port r =
    let (one, two) = one_given s p r.one_target in
    rw (given c r.context_given, given n r.namespace_given, one, two, port_good port r.port_valid)
      refl

create_complete :
    (via : ViaConfig) (o : Option CreateConfig) → IsCreate via o → validate_create via o ≡ ok tt
unfolding validate_create
create_complete via none h = refl
create_complete via (some c) (no_service, pod, image, valid) =
    rw (no_service, given via.pod pod, given c.image image, valid) refl

known : (m word : Bytes) → (m ≡ []) ⊎ (m ≡ word) → (not (is_empty m) && not (m == word)) ≡ false
known m word (inl e) = rw e refl
known [] word (inr e) = refl
known (x ∷ m) word (inr e) = rw ((bytes_beq_iff (x ∷ m) word).1 e) refl

jump_route_complete : (r : JumpRouteConfig) → IsJumpRoute r → validate_jump_route r ≡ ok tt
unfolding validate_jump_route validate_target
jump_route_complete r j =
    let (one, two) = one_given r.via.pod r.via.service j.one_via in
    rw
      (
        given r.context j.context_given,
        given r.namespace j.namespace_given,
        one,
        two,
        create_complete r.via r.via.create j.create_valid,
        given r.target.host j.host_given,
        j.host_valid,
        port_good r.target.port j.port_valid,
        known r.method (codes "socat") j.method_known,
      )
      refl

http_routes_complete :
    (m : GoMap Bytes K8sRouteConfig) → All HttpEntry m → validate_http_routes m ≡ ok tt
unfolding validate_http_routes
http_routes_complete [] h = refl
http_routes_complete ((k, r) ∷ m) (e, h) =
    rw (route_base_complete r.context r.namespace r.service r.pod r.port e)
      (http_routes_complete m h)

local_port_complete :
    (p http_port : ℤ) (seen : GoMap ℤ Source) (source : Source)
    → IsLocalPort http_port p
    → lookup seen p ≡ none
    → validate_local_port p http_port seen source ≡ ok (insert seen p source)
unfolding validate_local_port
local_port_complete p http_port seen source (port, other) free =
    let e : (p == http_port) ≡ false = ground (arith, int_beq_iff p http_port) in
    rw (port_good p port, e, free, claim) refl

still_free :
    (k : ℤ) (source : Source) (seen : GoMap ℤ Source) (ps : List ℤ)
    → Lacks k ps
    → All (λ p. lookup seen p ≡ none) ps
    → All (λ p. lookup (insert seen k source) p ≡ none) ps
still_free k source seen [] l f = tt
still_free k source seen (p ∷ ps) (ne, l) (free, f) =
    (lookup-insert_ne seen k p source (λ q. ne (sym q)) ∙ free, still_free k source seen ps l f)

-- A loop that registers local ports succeeds, and takes no other ports.
record Registers {E : Type 0} (ports : List ℤ) (seen : GoMap ℤ Source)
    (r : Result E (GoMap ℤ Source)) : Type 0 where
  after : GoMap ℤ Source
  succeeds : r ≡ ok after
  others : (j : ℤ) → Lacks j ports → lookup after j ≡ lookup seen j

module _ (http_port : ℤ) where
  tcp_routes_complete :
      (m : GoMap ℤ TcpRouteConfig) (seen : GoMap ℤ Source)
      → All (TcpEntry http_port) m
      → Distinct (keys m)
      → All (λ p. lookup seen p ≡ none) (keys m)
      → Registers (keys m) seen (validate_tcp_routes http_port m seen)
  unfolding validate_tcp_routes
  tcp_routes_complete [] seen v d f = record { after = seen; succeeds = refl; others = λ j l. refl }
  tcp_routes_complete ((p, r) ∷ m) seen ((local, route), v) (lacks, d) (free, f) =
      let rest =
        tcp_routes_complete m (insert seen p routes) v d
          (still_free p routes seen (keys m) lacks f) in
      record {
        after = rest.after;
        succeeds =
            rw
              (
                local_port_complete p http_port seen routes local free,
                route_base_complete r.context r.namespace r.service r.pod r.port route,
              )
              rest.succeeds;
        others = λ j l. rest.others j l.1 ∙ lookup-insert_ne seen p j routes l.0;
      }

  jump_routes_complete :
      (m : GoMap ℤ JumpRouteConfig) (seen : GoMap ℤ Source)
      → All (JumpEntry http_port) m
      → Distinct (keys m)
      → All (λ p. lookup seen p ≡ none) (keys m)
      → Registers (keys m) seen (validate_jump_routes http_port m seen)
  unfolding validate_jump_routes
  jump_routes_complete [] seen v d f = record {
    after = seen;
    succeeds = refl;
    others = λ j l. refl;
  }
  jump_routes_complete ((p, r) ∷ m) seen ((local, route), v) (lacks, d) (free, f) =
      let rest =
        jump_routes_complete m (insert seen p jump) v d (still_free p jump seen (keys m) lacks f) in
      record {
        after = rest.after;
        succeeds =
            rw (local_port_complete p http_port seen jump local free, jump_route_complete r route)
              rest.succeeds;
        others = λ j l. rest.others j l.1 ∙ lookup-insert_ne seen p j jump l.0;
      }

nonnegative : (t : ℤ) → IsNonnegative t → ltb_ℤ t (pos 0) ≡ false
nonnegative (pos n) h = ground arith
nonnegative (negsuc n) h = absurd h

positive : (t : ℤ) → IsPositive t → leb_ℤ t (pos 0) ≡ false
positive (pos n) h = ground arith
positive (negsuc n) h = absurd h

tcp_complete : (c : Config) (http_port : ℤ) → IsTcp c http_port → validate_tcp_entries c ≡ ok tt
unfolding validate_tcp_entries lookup
tcp_complete c http_port t =
    let (dr, dj, apart) =
      Distinct-split (keys c.tcp.k8s.routes) (keys c.tcp.k8s.jump) t.ports_distinct in
    let first =
      tcp_routes_complete http_port c.tcp.k8s.routes [] t.routes_valid dr
        (All-always (λ p. refl) (keys c.tcp.k8s.routes)) in
    let free =
      All-map _ _ (keys c.tcp.k8s.jump) (λ p l. first.others p l)
        (crossed (keys c.tcp.k8s.routes) (keys c.tcp.k8s.jump) apart) in
    let second = jump_routes_complete http_port c.tcp.k8s.jump first.after t.jumps_valid dj free in
    rw
      (
        nonnegative c.tcp.idle_timeout t.timeout_valid,
        t.port_known,
        first.succeeds,
        second.succeeds,
      )
      refl

validate_tcp_complete :
    (c : Config)
    → ((c.tcp.k8s.routes ≡ []) × (c.tcp.k8s.jump ≡ [])) ⊎ ((http_port : ℤ) × IsTcp c http_port)
    → validate_tcp c ≡ ok tt
unfolding validate_tcp
validate_tcp_complete c (inl (r, j)) = rw (r, j) refl
validate_tcp_complete c (inr (p, t)) =
    elim (Bool-cases (is_empty c.tcp.k8s.routes && is_empty c.tcp.k8s.jump)) [
      | inl e ↦ rw e refl
      | inr e ↦ rw e (tcp_complete c p t)
    ]

pub validate_complete : (c : Config) → IsValid c → validate c ≡ ok tt
unfolding validate
validate_complete c v =
    rw
      (
        known c.api_version current_api_version v.version_known,
        given c.http.listen_addr v.listen_given,
        positive c.http.idle_timeout v.timeout_valid,
        http_routes_complete c.http.k8s.routes v.routes_valid,
      )
      (validate_tcp_complete c v.tcp_valid)

-- A configuration is accepted by `Validate` exactly if it satisfies the specification: version,
-- listening address and timeout, every HTTP route, and, if there are TCP or jump entries, every one of
-- these, with local ports in range, apart from the port of HTTP, and all different across the two
-- maps.
pub validate_exact : (c : Config) → (validate c ≡ ok tt) ↔ IsValid c
validate_exact c = (validate_sound c, validate_complete c)
