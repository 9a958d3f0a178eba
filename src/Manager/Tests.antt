-- ===== src/Manager/Tests.antt =====
-- A manager that serves requests, and sweeps.
use lazyfwd.Base.{
  ℕ, zero, suc, ◌≡◌, ◌≢◌, refl, none, some, List, [], ◌∷◌, Bytes, bytes_beq, bytes_eq, codes, arith,
  get_elem?, ok, err, Bool-cases, inl, inr, ◌==◌, if◌then◌else◌,
}
use lazyfwd.Base.Int.{pos}
use lazyfwd.GoMap.{GoMap, IsMap, lookup}
use lazyfwd.ClientFactory.{Request, requests, get_client_for_context, get_client-stable}
use lazyfwd.Tunnel.{Tunnel, running, failed, open_chan, closed_chan}
use lazyfwd.Manager.{
  get_or_create_tcp_tunnel, reuse_tcp, create_tcp_tunnel, add_tcp_tunnel, tcp_kubeconfigs, Manager,
  resolve_route, add_tunnel, create_tunnel, reuse, get_or_create_tunnel,
}
use lazyfwd.Manager.Wf.{IsWf, get_or_create_tunnel-IsWf}
use lazyfwd.Manager.Lookup.{Served, Frame, get_or_create_tunnel-Served, get_or_create_tunnel-Frame}
use lazyfwd.Manager.Sharing
use lazyfwd.Manager.Sharing.{IsShared, get_or_create_tunnel-IsShared}
use lazyfwd.Manager.Idle.{sweep, cleanup_http, shutdown}
use lazyfwd.Manager.Shutdown.{IsMapped, shutdown-stops_all}
use lazyfwd.Manager.Tcp.{TcpServed, get_or_create_tcp_tunnel-TcpServed}
use lazyfwd.Manager.Expiry.{cleanup_http-Cleaned}
use lazyfwd.Manager.Cleanup.{CanStop, Apart, Cleaned, sweep-Cleaned}
use lazyfwd.Manager.Sample.{connect, tunnel_in, failed_one, running_one, with_tunnel-IsWf}

get_or_create_tunnel-Served_example :
    Served
      (codes "nginx")
      (get_or_create_tunnel connect 9 (codes "nginx") (codes "http") failed_one)
get_or_create_tunnel-Served_example =
    get_or_create_tunnel-Served connect 9 (codes "nginx") (codes "http") failed_one
      (with_tunnel-IsWf failed closed_chan 0)

get_or_create_tunnel-IsWf_example :
    IsWf (get_or_create_tunnel connect 9 (codes "nginx") (codes "http") failed_one).1
get_or_create_tunnel-IsWf_example =
    get_or_create_tunnel-IsWf connect 9 (codes "nginx") (codes "http") failed_one
      (with_tunnel-IsWf failed closed_chan 0)

-- A request for a hostname without a route, which fails.
abbrev for_other : List (Sharing.Request Bytes)
for_other =
    record { connect = connect; now = 10; hostname = codes "none"; scheme = codes "http" } ∷ []

-- The tunnel that replaces the failed one.
failed_replaced :
    (get_or_create_tunnel connect 9 (codes "nginx") (codes "http") failed_one).0 ≡ ok 1
unfolding get_or_create_tunnel reuse create_tunnel add_tunnel get_client_for_context resolve_route
    lookup bytes_beq
failed_replaced = refl

get_or_create_tunnel-IsShared_example :
    (let m' =
        Sharing.requests for_other
          (get_or_create_tunnel connect 9 (codes "nginx") (codes "http") failed_one).1 in
      IsShared 11 1 m' (get_or_create_tunnel connect 11 (codes "nginx") (codes "https") m'))
get_or_create_tunnel-IsShared_example =
    get_or_create_tunnel-IsShared connect connect 9 11 (codes "nginx") (codes "http")
      (codes "https") failed_one 1 for_other (with_tunnel-IsWf failed closed_chan 0) failed_replaced

get_or_create_tunnel-Frame_example :
    Frame
      (codes "nginx")
      failed_one
      (get_or_create_tunnel connect 9 (codes "nginx") (codes "http") failed_one)
get_or_create_tunnel-Frame_example =
    get_or_create_tunnel-Frame connect 9 (codes "nginx") (codes "http") failed_one

abbrev two : List (Tunnel Bytes)
two = tunnel_in running open_chan 0 ∷ tunnel_in running open_chan 90 ∷ []

abbrev two_keys : GoMap Bytes ℕ
two_keys = (codes "a", 0) ∷ (codes "b", 1) ∷ []

two-IsMap : IsMap two_keys
two-IsMap = (unfold lookup bytes_beq in refl, (unfold lookup in refl, tt))

two-Apart : Apart two_keys
unfolding lookup
two-Apart = (other, (λ j e. cc (e), tt))
  where
    other : (j : Bytes) → (if codes "b" == j then some (suc zero) else none) ≢ some zero
    other j e = elim (Bool-cases (codes "b" == j)) [
      | inl q ↦ cc (rw q at e)
      | inr q ↦ cc (rw q at e)
    ]

two-CanStop : CanStop two
two-CanStop zero t e r = ground arith
two-CanStop (suc zero) t e r = ground arith
two-CanStop (suc (suc i)) t e r = cc (e)

sweep-Cleaned_example : Cleaned 100 (pos 60) two_keys two (sweep 100 (pos 60) two_keys two)
sweep-Cleaned_example = sweep-Cleaned 100 (pos 60) two_keys two two-IsMap two-Apart two-CanStop

get_or_create_tcp_tunnel-TcpServed_example :
    TcpServed (pos 5433) (get_or_create_tcp_tunnel connect 9 (pos 5433) failed_one)
get_or_create_tcp_tunnel-TcpServed_example =
    get_or_create_tcp_tunnel-TcpServed connect 9 (pos 5433) failed_one
      (with_tunnel-IsWf failed closed_chan 0)

-- A port with a route gets a tunnel.
tcp_created : (get_or_create_tcp_tunnel connect 9 (pos 5433) failed_one).0 ≡ ok 1
unfolding get_or_create_tcp_tunnel reuse_tcp create_tcp_tunnel add_tcp_tunnel get_client_for_context
    tcp_kubeconfigs lookup bytes_beq
tcp_created = refl

one-CanStop : CanStop running_one.store
one-CanStop zero t e r = ground arith
one-CanStop (suc i) t e r = cc (e)

cleanup_http-Cleaned_example :
    (left : Manager Bytes) × (cleanup_http 100 running_one ≡ some left)
    × IsWf left
    × Cleaned 100 running_one.config.http.idle_timeout running_one.tunnels running_one.store
        (some (left.tunnels, left.store))
cleanup_http-Cleaned_example =
    cleanup_http-Cleaned 100 running_one (unfold lookup in refl, tt)
      (with_tunnel-IsWf running open_chan 0) one-CanStop

shutdown-stops_all_example :
    (left : Manager Bytes) × (shutdown running_one ≡ some left)
    × (left.tunnels ≡ [])
    × (left.tcp_tunnels ≡ [])
    × (left.clients ≡ [])
    × ((i : ℕ) (t : Tunnel Bytes)
        → IsMapped running_one i
        → get_elem? left.store i ≡ some t
        → t.state ≢ running)
shutdown-stops_all_example = shutdown-stops_all running_one one-CanStop

first_client : (get_client_for_context connect [] [] (codes "kind")).0 ≡ ok (codes "kind")
unfolding get_client_for_context lookup
first_client = refl

abbrev other_context : List (Request Bytes)
other_context = record { connect = connect; paths = []; context = codes "prod" } ∷ []

get_client-stable_example :
    get_client_for_context
      (λ paths c. err (codes "gone"))
      (requests other_context (get_client_for_context connect [] [] (codes "kind")).1)
      (codes "/other" ∷ [])
      (codes "kind")
    ≡ (
      ok (codes "kind"),
      requests other_context (get_client_for_context connect [] [] (codes "kind")).1,
    )
get_client-stable_example =
    get_client-stable connect (λ paths c. err (codes "gone")) [] [] (codes "/other" ∷ [])
      (codes "kind") (codes "kind") other_context first_client
