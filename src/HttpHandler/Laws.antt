-- ===== src/HttpHandler/Laws.antt =====
-- internal/httpserver/http_handler.go: what a request leaves behind.
use lazyfwd.Base.{
  ℕ, ◌≡◌, refl, ap, ◌∙◌, Option, none, some, Bytes, bytes_eq, codes, Result, ok, err,
}
use lazyfwd.GoMap.{lookup}
use lazyfwd.ClientFactory.{Connect}
use lazyfwd.Tunnel.{Error}
use lazyfwd.Manager.{Manager, get_or_create_tunnel}
use lazyfwd.Handle.{Weather}
use lazyfwd.Handle.Sound.{IsSound, get_or_create_tunnel-IsSound}
use lazyfwd.Handle.Laws.{
  IsHandle, Ensured, ensure_running-Ensured, handed_out, touch_at-IsSound, mark_failed_at-IsSound,
}
use lazyfwd.HttpHandler.{
  Request, Reply, served, bad_gateway, host_name, Tried, start_failed, proxied, after_touch,
  after_start, try_tunnel, last_reply, second_try, retry, first_reply, first_try, serve_http,
}

-- A request ends without a panic, in a sound manager; a reply that came through a tunnel came
-- through the one to which the map leads for its host.
abbrev pub Answered : {Client : Type 0} → Bytes → Option (Reply × Manager Client) → Type 0
Answered host none = ⊥
Answered host (some (served i, m)) = IsSound m × (lookup m.tunnels host ≡ some i) × IsHandle m i
Answered host (some (bad_gateway text, m)) = IsSound m

-- One try, with the entry of the host in the map.
abbrev Attempted : {Client : Type 0} → Bytes → ℕ → Option (Tried × Manager Client) → Type 0
Attempted host i none = ⊥
Attempted host i (some (r, m)) = IsSound m × (lookup m.tunnels host ≡ some i) × IsHandle m i

module _ {Client : Type 0} where
  after_start-Attempted :
      (later i : ℕ) (reported : Option Error) (host : Bytes) (m : Manager Client)
      (r : Option (Result Error (Unit {0}) × Manager Client))
      → lookup m.tunnels host ≡ some i
      → Ensured m i r
      → Attempted host i (after_start later i reported r)
  unfolding after_start after_touch
  after_start-Attempted later i reported host m none l e = e
  after_start-Attempted later i reported host m (some (err x, m')) l (s, same, h) =
      (s, ap (λ t. lookup t host) same.0 ∙ l, (h.0, h.1))
  after_start-Attempted later i reported host m (some (ok u, m')) l (s, same, (t, there, run)) =
      let (m'', q, s', same', h) = touch_at-IsSound later i m' t there s in
      rw (q, after_touch) (s', ap (λ t. lookup t host) (same'.0 ∙ same.0) ∙ l, (h.0, h.1))

  try_tunnel-Attempted :
      (w : Weather Client) (reported : Option Error) (i : ℕ) (host : Bytes) (m : Manager Client)
      → lookup m.tunnels host ≡ some i
      → IsHandle m i
      → IsSound m
      → Attempted host i (try_tunnel w reported i m)
  unfolding try_tunnel
  try_tunnel-Attempted w reported i host m l h s =
      after_start-Attempted w.later i reported host m _ l (ensure_running-Ensured w i m h s)

  last_reply-Answered :
      (host : Bytes) (i : ℕ) (r : Option (Tried × Manager Client))
      → Attempted host i r
      → Answered host (last_reply host i r)
  unfolding last_reply
  last_reply-Answered host i none a = a
  last_reply-Answered host i (some (start_failed e, m)) a = a.0
  last_reply-Answered host i (some (proxied none, m)) a = a
  last_reply-Answered host i (some (proxied (some e), m)) a = a.0

  retry-Answered :
      (connect : Connect Client) (w : Weather Client) (reported : Option Error) (host : Bytes)
      (first : Error) (m : Manager Client)
      → IsSound m
      → Answered host (retry connect w reported host first (some m))
  unfolding retry
  retry-Answered connect w reported host first m s =
      from (get_or_create_tunnel connect w.now host (codes "http") m) refl
    where
      from :
          (r : Result Error ℕ × Manager Client)
          → get_or_create_tunnel connect w.now host (codes "http") m ≡ r
          → Answered host (second_try w reported host first r)
      from (err e, m') q =
          unfold second_try in
          (rw q at (get_or_create_tunnel-IsSound connect w.now host (codes "http") m s))
      from (ok i, m') q =
          let (s', l, h) = handed_out connect w.now host (codes "http") m i m' s q in
          unfold second_try in
          last_reply-Answered host i _ (try_tunnel-Attempted w reported i host m' l h s')

  first_reply-Answered :
      (connect : Connect Client) (w : Weather Client) (reported : Option Error) (host : Bytes)
      (i : ℕ) (r : Option (Tried × Manager Client))
      → Attempted host i r
      → Answered host (first_reply connect w reported host i r)
  unfolding first_reply
  first_reply-Answered connect w reported host i none a = a
  first_reply-Answered connect w reported host i (some (start_failed e, m)) a = a.0
  first_reply-Answered connect w reported host i (some (proxied none, m)) a = a
  first_reply-Answered connect w reported host i (some (proxied (some e), m)) (s, l, h) =
      let (m', q, s', same, h') = mark_failed_at-IsSound e i m h s in
      rw q (retry-Answered connect w reported host e m' s')

  -- A request to a sound manager ends without a panic and leaves a sound manager, whatever its
  -- environment answers; a reply that is not an error came through the tunnel to which the map leads
  -- for the host of the request.
  pub serve_http-Answered :
      (connect : Connect Client) (w1 : Weather Client) (reported1 : Option Error)
      (w2 : Weather Client) (reported2 : Option Error) (r : Request) (m : Manager Client)
      → IsSound m
      → Answered (host_name r.host) (serve_http connect w1 reported1 w2 reported2 r m)
  unfolding serve_http
  serve_http-Answered connect w1 reported1 w2 reported2 r m s =
      from (get_or_create_tunnel connect w1.now host (codes "http") m) refl
    where
      host : Bytes
      host = host_name r.host

      from :
          (q : Result Error ℕ × Manager Client)
          → get_or_create_tunnel connect w1.now host (codes "http") m ≡ q
          → Answered host (first_try connect w1 reported1 w2 reported2 host q)
      from (err e, m') q =
          unfold first_try in
          (rw q at (get_or_create_tunnel-IsSound connect w1.now host (codes "http") m s))
      from (ok i, m') q =
          let (s', l, h) = handed_out connect w1.now host (codes "http") m i m' s q in
          unfold first_try in
          first_reply-Answered connect w2 reported2 host i _
            (try_tunnel-Attempted w1 reported1 i host m' l h s')
