-- ===== src/HttpHandler/Tests.antt =====
-- A request through a running tunnel, and one whose tunnel turns out to be dead.
use lazyfwd.Base.{◌≡◌, refl, none, some, bytes_beq, codes, ok}
use lazyfwd.GoMap.{lookup}
use lazyfwd.Text.{split, last_index}
use lazyfwd.Manager.{get_or_create_tunnel, reuse, create_tunnel, resolve_route, add_tunnel}
use lazyfwd.ClientFactory.{get_client_for_context}
use lazyfwd.Manager.Sample.{connect, tunnel_in, failed_one, running_one}
use lazyfwd.Tunnel.{running, open_chan}
use lazyfwd.Handle.{mark_failed_at}
use lazyfwd.Handle.Sample.{fair, running_one-IsSound}
use lazyfwd.HttpHandler.{Request, host_name, forwarded_for, retry, serve_http}
use lazyfwd.HttpHandler.Laws.{Answered, serve_http-Answered}
use lazyfwd.HttpHandler.Retry.{ThroughOther, retry-ne}

abbrev request : Request
request = record { host = codes "nginx:8989"; remote_addr = codes "127.0.0.1:40000" }

serve_http-Answered_example :
    Answered
      (host_name request.host)
      (serve_http connect fair (some (codes "refused")) fair none request running_one)
serve_http-Answered_example =
    serve_http-Answered connect fair (some (codes "refused")) fair none request running_one
      running_one-IsSound

created :
    get_or_create_tunnel connect 9 (codes "nginx") (codes "http") failed_one
    ≡ (ok 1, (get_or_create_tunnel connect 9 (codes "nginx") (codes "http") failed_one).1)
unfolding get_or_create_tunnel reuse lookup bytes_beq create_tunnel resolve_route add_tunnel
    get_client_for_context
created = refl

retry-ne_example : ThroughOther 0 (
    retry connect fair none
      (codes "nginx")
      (codes "refused")
      (mark_failed_at (codes "refused") 0 running_one))
retry-ne_example =
    retry-ne connect fair none (codes "nginx") (codes "refused") running_one 0
      (tunnel_in running open_chan 0) (unfold lookup bytes_beq in refl) refl refl

-- The host of an IPv6 literal is cut inside the brackets, and so is the address of a client.
host_of_ipv6 : host_name (codes "[::1]") ≡ codes "[:"
unfolding host_name last_index
host_of_ipv6 = refl

forwarded_for_ipv6 : forwarded_for (codes "[::1]:40000") ≡ codes "["
unfolding forwarded_for split
forwarded_for_ipv6 = refl
