-- ===== src/Discovery/Ports.antt =====
-- To which port of a container a port of a service leads.
use lazyfwd.Base.{
  ℕ, ◌≡◌, ◌≢◌, ◌⊎◌, refl, sym, subst, inl, inr, false, none, some, List, [], ◌∷◌, ◌++◌,
  append_assoc, Bytes, bytes_eq, bytes_beq_iff, All, ◌==◌, Bool-cases,
}
use lazyfwd.Base.Int.{ℤ, pos, int_eq, int_beq_iff}
use lazyfwd.Discovery.{ContainerPort, Pod, ServicePort, resolve_service_port, named_in, named_port}
use lazyfwd.Discovery.Best.{First, First-here, First-there}

differ : (a b : ℤ) → (a == b) ≡ false → a ≢ b
differ a b h q = cc (h, (int_beq_iff a b).1 q)

abbrev pub Named : Bytes → List ContainerPort → ContainerPort → Type 0
Named name = First (λ c. c.name ≡ name) (λ c. c.name ≢ name)

-- The ports of all containers of a pod, in their order.
abbrev pub all_ports : List (List ContainerPort) → List ContainerPort
all_ports [] = []
all_ports (c ∷ cs) = c ++ all_ports cs

-- The container's port to which an entry of a service leads: a number, or the port itself where
-- neither a number nor a name is given, or the first port of that name in the pod.
abbrev pub Target : ServicePort → ℤ → Pod → ℤ → Type 0
Target p port pod r =
    ((p.target_port.int_val ≢ pos 0) × (r ≡ p.target_port.int_val))
    ⊎ (((p.target_port.int_val ≡ pos 0) × (p.target_port.str_val ≡ []) × (r ≡ port))
        ⊎ ((p.target_port.int_val ≡ pos 0)
            × (p.target_port.str_val ≢ [])
            × ((c : ContainerPort) × Named p.target_port.str_val (all_ports pod.containers) c
                × (c.container_port ≡ r))))

-- A port that no entry of the service has is taken as it is.
abbrev pub LeadsTo : List ServicePort → ℤ → Pod → ℤ → Type 0
LeadsTo ports port pod r =
    (All (λ p. p.port ≢ port) ports × (r ≡ port))
    ⊎ ((p : ServicePort) × First (λ p. p.port ≡ port) (λ p. p.port ≢ port) ports p
        × Target p port pod r)

name_differs : (a b : Bytes) → (a == b) ≡ false → a ≢ b
name_differs a b h q = cc (h, (bytes_beq_iff a b).1 q)

-- A search behind entries of other names.
Named-behind :
    (name : Bytes) (xs ys : List ContainerPort) (c : ContainerPort)
    → All (λ p. p.name ≢ name) xs
    → Named name ys c
    → Named name (xs ++ ys) c
Named-behind name [] ys c a f = f
Named-behind name (x ∷ xs) ys c a f =
    First-there _ _ x c (xs ++ ys) a.0 (Named-behind name xs ys c a.1 f)

Named-before :
    (name : Bytes) (xs ys : List ContainerPort) (c : ContainerPort)
    → Named name xs c
    → Named name (xs ++ ys) c
Named-before name xs ys c f = record {
  before = f.before;
  after = f.after ++ ys;
  split = rw f.split (append_assoc f.before (c ∷ f.after) ys);
  skipped = f.skipped;
  holds = f.holds;
}

named_in-First :
    (xs : List ContainerPort) (name : Bytes)
    → ((c : ContainerPort) × (named_in xs name ≡ some c.container_port) × Named name xs c)
      ⊎ ((named_in xs name ≡ none) × All (λ p. p.name ≢ name) xs)
unfolding named_in
named_in-First [] name = inr (refl, tt)
named_in-First (x ∷ xs) name = elim (Bool-cases (x.name == name)) [
  | inl e ↦ inl (x, rw e refl, First-here _ _ x xs ((bytes_beq_iff x.name name).0 e))
  | inr n ↦ elim (named_in-First xs name) [
    | inl (c, e, f) ↦ inl (c, rw n e, First-there _ _ x c xs (name_differs x.name name n) f)
    | inr (e, all) ↦ inr (rw n e, (name_differs x.name name n, all))
  ]
]

named_port-First :
    (cs : List (List ContainerPort)) (name : Bytes) (r : ℤ)
    → named_port cs name ≡ some r
    → (c : ContainerPort) × Named name (all_ports cs) c × (c.container_port ≡ r)
unfolding named_port
named_port-First [] name r h = cc
named_port-First (x ∷ cs) name r h = elim (named_in-First x name) [
  | inl (c, e, f) ↦ (c, Named-before name x (all_ports cs) c f, cc (rw (e, named_port) at h))
  | inr (e, all) ↦
      let (c, f, q) = named_port-First cs name r (rw (e, named_port) at h) in
      (c, Named-behind name x (all_ports cs) c all f, q)
]

-- What an entry of a service gives: a number, or the port with a name, which may be empty.
abbrev pub Entry : ServicePort → ℤ → ℤ × Bytes → Type 0
Entry p port (q, name) =
    ((p.target_port.int_val ≢ pos 0) × (q ≡ p.target_port.int_val) × (name ≡ []))
    ⊎ ((p.target_port.int_val ≡ pos 0) × (q ≡ port) × (name ≡ p.target_port.str_val))

abbrev pub Resolved : List ServicePort → ℤ → ℤ × Bytes → Type 0
Resolved ports port (q, name) =
    (All (λ p. p.port ≢ port) ports × (q ≡ port) × (name ≡ []))
    ⊎ ((p : ServicePort) × First (λ p. p.port ≡ port) (λ p. p.port ≢ port) ports p
        × Entry p port (q, name))

Resolved-behind :
    (p : ServicePort) (ports : List ServicePort) (port : ℤ) (r : ℤ × Bytes)
    → p.port ≢ port
    → Resolved ports port r
    → Resolved (p ∷ ports) port r
Resolved-behind p ports port (q, name) n (inl (all, e, f)) = inl ((n, all), e, f)
Resolved-behind p ports port (q, name) n (inr (x, f, e)) = inr (x, First-there _ _ p x ports n f, e)

pub resolve_service_port-Resolved :
    (ports : List ServicePort) (port : ℤ) → Resolved ports port (resolve_service_port ports port)
unfolding resolve_service_port
resolve_service_port-Resolved [] port = inl (tt, refl, refl)
resolve_service_port-Resolved (p ∷ ports) port = elim (Bool-cases (p.port == port)) [
  | inr n ↦
      rw (n, resolve_service_port)
        (Resolved-behind p ports port (resolve_service_port ports port) (differ p.port port n)
          (resolve_service_port-Resolved ports port))
  | inl e ↦
      let here =
        First-here (λ x. x.port ≡ port) (λ x. x.port ≢ port) p ports
          ((int_beq_iff p.port port).0 e) in
      elim (Bool-cases (p.target_port.int_val == pos 0)) [
        | inl z ↦
            rw (e, z, resolve_service_port)
              (inr (p, here, inr ((int_beq_iff p.target_port.int_val (pos 0)).0 z, refl, refl)))
        | inr z ↦
            rw (e, z, resolve_service_port)
              (inr (p, here, inl (differ p.target_port.int_val (pos 0) z, refl, refl)))
      ]
]

-- With no name left the port is final.
pub unnamed-LeadsTo :
    (ports : List ServicePort) (port q : ℤ) (pod : Pod)
    → Resolved ports port (q, [])
    → LeadsTo ports port pod q
unnamed-LeadsTo ports port q pod (inl (all, e, f)) = inl (all, e)
unnamed-LeadsTo ports port q pod (inr (p, f, inl (n, e, g))) = inr (p, f, inl (n, e))
unnamed-LeadsTo ports port q pod (inr (p, f, inr (z, e, g))) = inr (p, f, inr (inl (z, sym g, e)))

-- With a name it is the port of that name.
pub named-LeadsTo :
    (ports : List ServicePort) (port q r : ℤ) (c : ℕ) (name : Bytes) (pod : Pod)
    → Resolved ports port (q, c ∷ name)
    → named_port pod.containers (c ∷ name) ≡ some r
    → LeadsTo ports port pod r
named-LeadsTo ports port q r c name pod (inl (all, e, f)) h = cc (f)
named-LeadsTo ports port q r c name pod (inr (p, f, inl (n, e, g))) h = cc (g)
named-LeadsTo ports port q r c name pod (inr (p, f, inr (z, e, g))) h = inr (
  p,
  f,
  inr (
      inr (
        z,
        (λ k. cc (g, k)),
        subst
            (λ n.
              (x : ContainerPort) × Named n (all_ports pod.containers) x × (x.container_port ≡ r))
            g (named_port-First pod.containers (c ∷ name) r h),
      )),
)
