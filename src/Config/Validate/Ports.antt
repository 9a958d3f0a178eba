-- ===== src/Config/Validate/Ports.antt =====
-- The two loops over the TCP maps, which share the ports seen so far.
use lazyfwd.Base.{
  ◌≡◌, ◌≢◌, none, List, [], ◌∷◌, ◌++◌, arith, All, All-map, bytes_eq, ok, map_err, sym, subst,
  All-append, All-append_left, All-append_right, bind-ok, map_err-ok,
}
use lazyfwd.Base.Int.{ℤ, int_beq_iff, int_eq}
use lazyfwd.GoMap.{GoMap, lookup, insert, lookup-insert}
use lazyfwd.Config.{TcpRouteConfig, JumpRouteConfig}
use lazyfwd.Config.Errors.{Source, routes, jump}
use lazyfwd.Config.Validate.{
  validate_local_port, validate_route_base, validate_jump_route, validate_tcp_routes,
  validate_jump_routes,
}
use lazyfwd.Config.Validate.Spec.{keys, Lacks, Distinct, TcpEntry, JumpEntry}
use lazyfwd.Config.Validate.Routes.{
  validate_route_base-IsRoute, validate_local_port-IsLocalPort, validate_jump_route-IsJumpRoute,
}

-- What a loop that registers local ports has established: its ports are new, and the ports that
-- are free afterwards are none of its own.
pub record Registered (ports : List ℤ) (seen seen' : GoMap ℤ Source) : Type 0 where
  pub distinct : Distinct ports
  pub fresh : All (λ p. lookup seen p ≡ none) ports
  pub kept : (j : ℤ) → lookup seen' j ≡ none → (lookup seen j ≡ none) × Lacks j ports

free_after_insert :
    (seen : GoMap ℤ Source) (p j : ℤ) (source : Source)
    → lookup (insert seen p source) j ≡ none
    → (p ≢ j) × (lookup seen j ≡ none)
free_after_insert seen p j source h = ground (arith, lookup-insert seen p j source, int_beq_iff p j)

Registered-cons :
    (p : ℤ) (ports : List ℤ) (seen seen' : GoMap ℤ Source) (source : Source)
    → lookup seen p ≡ none
    → Registered ports (insert seen p source) seen'
    → Registered (p ∷ ports) seen seen'
Registered-cons p ports seen seen' source free r = record {
  distinct = (
    All-map _ _ ports (λ j e q. (free_after_insert seen p j source e).0 (sym q)) r.fresh,
    r.distinct,
  );
  fresh = (free, All-map _ _ ports (λ j e. (free_after_insert seen p j source e).1) r.fresh);
  kept = λ j e.
      let (e', l) = r.kept j e in
      let (ne, e'') = free_after_insert seen p j source e' in (e'', (ne, l));
}

abbrev Loop : (ℤ → Type 0) → List ℤ → GoMap ℤ Source → GoMap ℤ Source → Type 0
Loop P ports seen seen' = All P ports × Registered ports seen seen'

Registered-nil : (seen : GoMap ℤ Source) → Registered [] seen seen
Registered-nil seen = record { distinct = tt; fresh = tt; kept = λ j e. (e, tt) }

module _ (http_port : ℤ) where
  pub tcp_routes_sound :
      (m : GoMap ℤ TcpRouteConfig) (seen seen' : GoMap ℤ Source)
      → validate_tcp_routes http_port m seen ≡ ok seen'
      → All (TcpEntry http_port) m × Registered (keys m) seen seen'
  unfolding validate_tcp_routes
  tcp_routes_sound [] seen seen' h =
      (tt, subst (λ s. Registered [] seen s) (ground (arith, h)) (Registered-nil seen))
  tcp_routes_sound ((p, r) ∷ m) seen seen' h =
      let (mid, a, h1) = bind-ok (map_err _ (validate_local_port p http_port seen routes)) _ h in
      let (u, b, h2) = bind-ok (map_err _ (validate_route_base _ _ _ _ _)) _ h1 in
      let (local, free, e) =
        validate_local_port-IsLocalPort p http_port seen mid routes (map_err-ok _ _ a) in
      let (entries, reg) = tcp_routes_sound m mid seen' h2 in
      (
        ((local, validate_route_base-IsRoute _ _ _ _ _ (map_err-ok _ _ b)), entries),
        Registered-cons p (keys m) seen seen' routes free
            (subst (λ s. Registered (keys m) s seen') e reg),
      )

  pub jump_routes_sound :
      (m : GoMap ℤ JumpRouteConfig) (seen seen' : GoMap ℤ Source)
      → validate_jump_routes http_port m seen ≡ ok seen'
      → All (JumpEntry http_port) m × Registered (keys m) seen seen'
  unfolding validate_jump_routes
  jump_routes_sound [] seen seen' h =
      (tt, subst (λ s. Registered [] seen s) (ground (arith, h)) (Registered-nil seen))
  jump_routes_sound ((p, r) ∷ m) seen seen' h =
      let (mid, a, h1) = bind-ok (map_err _ (validate_local_port p http_port seen jump)) _ h in
      let (u, b, h2) = bind-ok (map_err _ (validate_jump_route r)) _ h1 in
      let (local, free, e) =
        validate_local_port-IsLocalPort p http_port seen mid jump (map_err-ok _ _ a) in
      let (entries, reg) = jump_routes_sound m mid seen' h2 in
      (
        ((local, validate_jump_route-IsJumpRoute r (map_err-ok _ _ b)), entries),
        Registered-cons p (keys m) seen seen' jump free
            (subst (λ s. Registered (keys m) s seen') e reg),
      )

pub Distinct-append :
    (a b : List ℤ) → Distinct a → Distinct b → All (λ j. Lacks j a) b → Distinct (a ++ b)
Distinct-append [] b da db apart = db
Distinct-append (x ∷ a) b da db apart = (
  All-append _ a b da.0 (All-map _ _ b (λ j l e. l.0 (sym e)) apart),
  Distinct-append a b da.1 db (All-map _ _ b (λ j l. l.1) apart),
)

-- Two lists that are distinct together.
pub Distinct-split :
    (xs ys : List ℤ) → Distinct (xs ++ ys) → Distinct xs × Distinct ys × All (λ x. Lacks x ys) xs
Distinct-split [] ys d = (tt, d, tt)
Distinct-split (x ∷ xs) ys (l, d) =
    let (a, b, c) = Distinct-split xs ys d in
    ((All-append_left _ xs ys l, a), b, (All-append_right _ xs ys l, c))

pub crossed : (xs ys : List ℤ) → All (λ x. Lacks x ys) xs → All (λ y. Lacks y xs) ys
crossed xs [] h = tt
crossed xs (y ∷ ys) h =
    (All-map _ _ xs (λ x l e. l.0 (sym e)) h, crossed xs ys (All-map _ _ xs (λ x l. l.1) h))

pub All-always : {P : ℤ → Type 0} → ((p : ℤ) → P p) → (ps : List ℤ) → All P ps
All-always f [] = tt
All-always f (p ∷ ps) = (f p, All-always f ps)
