-- ===== src/ClientFactory.antt =====
-- internal/k8sutil/client.go: one Kubernetes client for each context, made on first use. Making a
-- client (client-go: reading the files, building the clientset) is the argument `connect`.
use lazyfwd.Base.{
  ◌≡◌, ◌≢◌, refl, Option, none, some, List, [], ◌∷◌, arith, Bytes, bytes_eq, Result, ok, err,
  Option-cases, Result-cases, inl, inr,
}
use lazyfwd.GoMap.{GoMap, lookup, insert, lookup-insert_self, lookup-insert_ne}

abbrev pub Error : Type 0
Error = Bytes

abbrev pub Clients : Type 0 → Type 0
Clients Client = GoMap Bytes Client

-- The paths of the kubeconfig files, and the context.
abbrev pub Connect : Type 0 → Type 0
Connect Client = List Bytes → Bytes → Result Error Client

-- A request, with how the connection goes at its time.
pub record Request (Client : Type 0) : Type 0 where
  pub connect : Connect Client
  pub paths : List Bytes
  pub context : Bytes

module _ {Client : Type 0} where
  added : Clients Client → Bytes → Result Error Client → Result Error Client × Clients Client
  added clients context (err e) = (err e, clients)
  added clients context (ok c) = (ok c, insert clients context c)

  cached :
      Connect Client
      → Clients Client
      → List Bytes
      → Bytes
      → Option Client
      → Result Error Client × Clients Client
  unfolding added
  cached connect clients paths context (some c) = (ok c, clients)
  cached connect clients paths context none = added clients context (connect paths context)

  -- `GetClientForContext`. The paths play no part once a context has its client.
  unfoldable pub get_client_for_context :
      Connect Client → Clients Client → List Bytes → Bytes → Result Error Client × Clients Client
  unfolding cached
  get_client_for_context connect clients paths context =
      cached connect clients paths context (lookup clients context)

  -- Requests one after another.
  unfoldable pub requests : List (Request Client) → Clients Client → Clients Client
  requests [] clients = clients
  requests (q ∷ later) clients =
      requests later (get_client_for_context q.connect clients q.paths q.context).1

  -- `Clear`
  unfoldable pub clear : Clients Client → Clients Client
  clear clients = []

  -- `InjectClient`
  unfoldable pub inject_client : Clients Client → Bytes → Client → Clients Client
  inject_client clients context c = insert clients context c

  get_client-keeps :
      (connect : Connect Client) (clients : Clients Client) (paths : List Bytes)
      (other context : Bytes) (c : Client)
      → lookup clients context ≡ some c
      → lookup (get_client_for_context connect clients paths other).1 context ≡ some c
  unfolding get_client_for_context
  get_client-keeps connect clients paths other context c h =
      elim (Option-cases (lookup clients other)) [
        | inr (d, e) ↦ rw e h
        | inl e ↦ elim (Result-cases (connect paths other)) [
          | inr (x, f) ↦ rw (e, f) h
          | inl (d, f) ↦
              let differ : other ≢ context = (λ same. cc (same, e, h)) in
              rw (e, f, lookup-insert_ne clients other context d differ) h
        ]
      ]

  requests-keep :
      (later : List (Request Client)) (clients : Clients Client) (context : Bytes) (c : Client)
      → lookup clients context ≡ some c
      → lookup (requests later clients) context ≡ some c
  unfolding requests
  requests-keep [] clients context c h = h
  requests-keep (q ∷ later) clients context c h =
      requests-keep later _ context c
        (get_client-keeps q.connect clients q.paths q.context context c h)

  first_kept :
      (connect : Connect Client) (clients : Clients Client) (paths : List Bytes) (context : Bytes)
      (c : Client)
      → (get_client_for_context connect clients paths context).0 ≡ ok c
      → lookup (get_client_for_context connect clients paths context).1 context ≡ some c
  unfolding get_client_for_context
  first_kept connect clients paths context c h = elim (Option-cases (lookup clients context)) [
    | inr (d, e) ↦ ground arith
    | inl e ↦ elim (Result-cases (connect paths context)) [
      | inr (x, f) ↦ ground arith
      | inl (d, f) ↦ ground (arith, lookup-insert_self clients context d)
    ]
  ]

  found_again :
      (connect : Connect Client) (clients : Clients Client) (paths : List Bytes) (context : Bytes)
      (c : Client)
      → lookup clients context ≡ some c
      → get_client_for_context connect clients paths context ≡ (ok c, clients)
  unfolding get_client_for_context
  found_again connect clients paths context c h = rw h refl

  -- Once a context has been given a client, every later request for that context gets the same one,
  -- whatever requests there were since, for this and for other contexts, whether they failed or not,
  -- whatever files it names, however the connection would go now, and with no change to the cache.
  pub get_client-stable :
      (connect connect' : Connect Client) (clients : Clients Client) (paths paths' : List Bytes)
      (context : Bytes) (c : Client) (later : List (Request Client))
      → (get_client_for_context connect clients paths context).0 ≡ ok c
      → get_client_for_context connect'
          (requests later (get_client_for_context connect clients paths context).1)
          paths'
          context
        ≡ (ok c, requests later (get_client_for_context connect clients paths context).1)
  get_client-stable connect connect' clients paths paths' context c later h =
      found_again connect' _ paths' context c
        (requests-keep later _ context c (first_kept connect clients paths context c h))
