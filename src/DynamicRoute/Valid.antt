-- ===== src/DynamicRoute/Valid.antt =====
-- Dynamic routes against the validation of static ones.
use lazyfwd.Base.{◌≡◌, ◌≢◌, refl, Bool, true, false, some, [], ◌∷◌, Bytes, ok}
use lazyfwd.Base.Int.{ℤ}
use lazyfwd.Config.{K8sRouteConfig, is_bad_port}
use lazyfwd.Config.Validate.{validate_route_base}
use lazyfwd.DynamicRoute.{build_route, parse_dynamic_hostname}
use lazyfwd.DynamicRoute.Sound.{parse_dynamic_hostname_sound}

build_route-accepted :
    (b : Bool) (name context namespace : Bytes) (port : ℤ) (scheme : Bytes)
    → name ≢ []
    → context ≢ []
    → namespace ≢ []
    → is_bad_port port ≡ false
    → let r = build_route b name context namespace port scheme in
      validate_route_base r.context r.namespace r.service r.pod r.port ≡ ok tt
unfolding build_route validate_route_base
build_route-accepted b [] c n port scheme ng cg sg h = absurd (ng refl)
build_route-accepted b (x ∷ name) [] n port scheme ng cg sg h = absurd (cg refl)
build_route-accepted b (x ∷ name) (y ∷ c) [] port scheme ng cg sg h = absurd (sg refl)
build_route-accepted true (x ∷ name) (y ∷ c) (z ∷ n) port scheme ng cg sg h = rw h refl
build_route-accepted false (x ∷ name) (y ∷ c) (z ∷ n) port scheme ng cg sg h = rw h refl

-- A route that a hostname spells passes the checks that the routes of the file have to pass, so
-- dynamic routing brings in no route that a configuration could not have held.
pub dynamic_route-accepted :
    (hostname dynamic_host scheme : Bytes) (r : K8sRouteConfig)
    → parse_dynamic_hostname hostname dynamic_host scheme ≡ some r
    → validate_route_base r.context r.namespace r.service r.pod r.port ≡ ok tt
dynamic_route-accepted hostname dynamic_host scheme r h =
    let s = parse_dynamic_hostname_sound hostname dynamic_host scheme r h in
    let p = s.parts in
    rw s.result (
      build_route-accepted p.is_service p.name p.context p.namespace s.port scheme
        s.given.name_given s.given.context_given s.given.namespace_given s.given.port_valid)
