-- ===== src/Config/Validate/Routes.antt =====
-- What the checks of single routes and ports let through.
use lazyfwd.Base.{
  ◌≡◌, ◌≢◌, ◌⊎◌, refl, inl, inr, Bool, true, false, not, ◌&&◌, Option, none, some, List, [], ◌∷◌,
  arith, Bytes, codes, All, is_empty, ◌==◌, bytes_eq, bytes_beq_iff, ok, Option-cases, Result-cases,
  refuse-ok, refuse-last, bind-ok,
}
use lazyfwd.Base.Int.{ℤ, pos, negsuc, int_beq_iff, int_eq}
use lazyfwd.GoMap.{GoMap, lookup, insert}
use lazyfwd.Config.{K8sRouteConfig, JumpRouteConfig, ViaConfig, CreateConfig, is_bad_port}
use lazyfwd.Config.Errors.{Source}
use lazyfwd.Config.Host.{is_valid_target_host}
use lazyfwd.Config.Validate.{
  validate_local_port, validate_route_base, validate_create, validate_target, validate_jump_route,
  validate_http_routes,
}
use lazyfwd.Config.Validate.Spec.{
  IsPort, OneOf, IsRoute, IsCreate, IsJumpRoute, IsLocalPort, HttpEntry,
}

is_bad_port-IsPort : (p : ℤ) → is_bad_port p ≡ false → IsPort p
unfolding is_bad_port
is_bad_port-IsPort (pos n) h = ground arith
is_bad_port-IsPort (negsuc n) h = cc

pub validate_route_base-IsRoute :
    (context namespace service pod : Bytes) (port : ℤ)
    → validate_route_base context namespace service pod port ≡ ok tt
    → IsRoute context namespace service pod port
unfolding validate_route_base
validate_route_base-IsRoute [] n s p port h = cc
validate_route_base-IsRoute (a ∷ c) [] s p port h = cc
validate_route_base-IsRoute (a ∷ c) (b ∷ n) [] [] port h = cc
validate_route_base-IsRoute (a ∷ c) (b ∷ n) (d ∷ s) (e ∷ p) port h = cc
validate_route_base-IsRoute (a ∷ c) (b ∷ n) [] (e ∷ p) port h = record {
  context_given = cc;
  namespace_given = cc;
  one_target = inr (refl, cc);
  port_valid = is_bad_port-IsPort port (ground arith);
}
validate_route_base-IsRoute (a ∷ c) (b ∷ n) (d ∷ s) [] port h = record {
  context_given = cc;
  namespace_given = cc;
  one_target = inl (cc, refl);
  port_valid = is_bad_port-IsPort port (ground arith);
}

pub validate_local_port-IsLocalPort :
    (p http_port : ℤ) (seen seen' : GoMap ℤ Source) (source : Source)
    → validate_local_port p http_port seen source ≡ ok seen'
    → IsLocalPort http_port p × (lookup seen p ≡ none) × (seen' ≡ insert seen p source)
unfolding validate_local_port
validate_local_port-IsLocalPort p http_port seen seen' source h =
    let (a, h1) = refuse-ok (is_bad_port p) _ _ h in
    let (b, h2) = refuse-ok (p == http_port) _ _ h1 in
    elim (Option-cases (lookup seen p)) [
      | inl e ↦ (
        (is_bad_port-IsPort p a, ground (arith, b, int_beq_iff p http_port)),
        e,
        ground (arith, h2),
      )
      | inr (s, e) ↦ ground (arith, h2)
    ]

pub not_is_empty {ℓ} : {A : Type ℓ} (s : List A) → is_empty s ≡ false → s ≢ []
not_is_empty [] h = cc
not_is_empty (x ∷ s) h = cc

empty_of_not {ℓ} : {A : Type ℓ} (s : List A) → not (is_empty s) ≡ false → s ≡ []
empty_of_not [] h = refl
empty_of_not (x ∷ s) h = cc

one_of :
    (a b : Bytes)
    → (is_empty a && is_empty b) ≡ false
    → (not (is_empty a) && not (is_empty b)) ≡ false
    → OneOf a b
one_of [] [] h k = cc
one_of [] (y ∷ b) h k = inr (refl, cc)
one_of (x ∷ a) [] h k = inl (cc, refl)
one_of (x ∷ a) (y ∷ b) h k = cc

not-false : (b : Bool) → not b ≡ false → b ≡ true
not-false true h = refl
not-false false h = cc

validate_create-IsCreate :
    (via : ViaConfig) (o : Option CreateConfig) → validate_create via o ≡ ok tt → IsCreate via o
unfolding validate_create
validate_create-IsCreate via none h = tt
validate_create-IsCreate via (some c) h =
    let (a, h1) = refuse-ok (not (is_empty via.service)) _ _ h in
    let (b, h2) = refuse-ok (is_empty via.pod) _ _ h1 in
    let (d, h3) = refuse-ok (is_empty c.image) _ _ h2 in
    (
      empty_of_not via.service a,
      not_is_empty via.pod b,
      not_is_empty c.image d,
      not-false _ (refuse-last _ _ h3),
    )

pub known_or_empty :
    (m word : Bytes) → (not (is_empty m) && not (m == word)) ≡ false → (m ≡ []) ⊎ (m ≡ word)
known_or_empty [] word h = inl refl
known_or_empty (x ∷ m) word h = inr ((bytes_beq_iff (x ∷ m) word).0 (not-false _ h))

pub validate_jump_route-IsJumpRoute :
    (r : JumpRouteConfig) → validate_jump_route r ≡ ok tt → IsJumpRoute r
unfolding validate_jump_route
validate_jump_route-IsJumpRoute r h =
    let (a, h1) = refuse-ok (is_empty r.context) _ _ h in
    let (b, h2) = refuse-ok (is_empty r.namespace) _ _ h1 in
    let (c, h3) = refuse-ok (is_empty r.via.pod && is_empty r.via.service) _ _ h2 in
    let (d, h4) = refuse-ok (not (is_empty r.via.pod) && not (is_empty r.via.service)) _ _ h3 in
    let (u, created, h5) = bind-ok (validate_create r.via r.via.create) _ h4 in
    let (v, aimed, h6) = bind-ok (validate_target r.target) _ h5 in
    let (e, t1) = refuse-ok (is_empty r.target.host) _ _ aimed in
    let (f, t2) = refuse-ok (not (is_valid_target_host r.target.host)) _ _ t1 in
    record {
      context_given = not_is_empty r.context a;
      namespace_given = not_is_empty r.namespace b;
      one_via = one_of r.via.pod r.via.service c d;
      create_valid = validate_create-IsCreate r.via r.via.create created;
      host_given = not_is_empty r.target.host e;
      host_valid = not-false _ f;
      port_valid = is_bad_port-IsPort r.target.port (refuse-last _ _ t2);
      method_known = known_or_empty r.method (codes "socat") (refuse-last _ _ h6);
    }

pub http_routes_sound :
    (m : GoMap Bytes K8sRouteConfig) → validate_http_routes m ≡ ok tt → All HttpEntry m
unfolding validate_http_routes
http_routes_sound [] h = tt
http_routes_sound ((k, r) ∷ m) h =
    elim (Result-cases (validate_route_base r.context r.namespace r.service r.pod r.port)) [
      | inl (u, e) ↦ (validate_route_base-IsRoute _ _ _ _ _ e, http_routes_sound m (rw e at h))
      | inr (x, e) ↦ cc (rw e at h)
    ]
