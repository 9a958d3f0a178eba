-- ===== src/ExecPath/Added.antt =====
-- internal/config/execpath.go: which directories are put before the PATH.
use lazyfwd.Base.{
  ◌≡◌, ◌≢◌, ◌⊎◌, refl, sym, subst, Bool, true, false, not, ◌&&◌, List, [], ◌∷◌, map, arith, All,
  All-map, ◌++◌, codes, append_assoc, Bytes, bytes_eq, if◌then◌else◌, ◌==◌, beq_self, bytes_beq_iff,
  Bool-cases, inl, inr,
}
use lazyfwd.GoMap.{GoMap, lookup, insert, lookup-insert}
use lazyfwd.Text.{split, join}
use lazyfwd.Config.Validate.Spec.{Lacks, Distinct}
use lazyfwd.ExecPath.{
  Process, default_exec_paths, expand_tilde, is_marked, mark_all, new_paths, candidates, path_with,
  expand_exec_path,
}

is_marked-insert :
    (seen : GoMap Bytes Bool) (p q : Bytes)
    → is_marked (insert seen p true) q ≡ (if p == q then true else is_marked seen q)
unfolding is_marked
is_marked-insert seen p q = elim (Bool-cases (p == q)) [
  | inl e ↦ rw (lookup-insert seen p q true, e, is_marked) refl
  | inr e ↦ rw (lookup-insert seen p q true, e, is_marked) refl
]

marked_after :
    (seen : GoMap Bytes Bool) (p q : Bytes)
    → is_marked (insert seen p true) q ≡ false
    → (q ≢ p) × (is_marked seen q ≡ false)
marked_after seen p q h = elim (Bool-cases (p == q)) [
  | inl e ↦ cc (rw (is_marked-insert seen p q, e) at h)
  | inr e ↦ (
    (λ same. cc (subst (λ x. (p == x) ≡ false) same e, beq_self p)),
    (rw (is_marked-insert seen p q, e) at h),
  )
]

-- Directories that exist, none of them twice and none marked before.
record Fresh (exists : Bytes → Bool) (seen : GoMap Bytes Bool) (ps : List Bytes) : Type 0 where
  exist : All (λ p. exists p ≡ true) ps
  unmarked : All (λ p. is_marked seen p ≡ false) ps
  distinct : Distinct ps

new_paths-Fresh :
    (exists : Bytes → Bool) (ps : List Bytes) (seen : GoMap Bytes Bool)
    → Fresh exists seen (new_paths exists ps seen)
unfolding new_paths
new_paths-Fresh exists [] seen = record { exist = tt; unmarked = tt; distinct = tt }
new_paths-Fresh exists (p ∷ ps) seen =
    from (exists p && not (is_marked seen p)) refl (new_paths-Fresh exists ps (insert seen p true))
      (new_paths-Fresh exists ps seen)
  where
    from :
        (b : Bool)
        → (exists p && not (is_marked seen p)) ≡ b
        → Fresh exists (insert seen p true) (new_paths exists ps (insert seen p true))
        → Fresh exists seen (new_paths exists ps seen)
        → Fresh exists seen (elim b [
          | true ↦ p ∷ new_paths exists ps (insert seen p true)
          | false ↦ new_paths exists ps seen
        ])
    from false q f g = g
    from true q f g =
        let other = All-map _ _ _ (λ x h. marked_after seen p x h) f.unmarked in
        record {
          exist = ((ground arith), f.exist);
          unmarked = ((ground arith), All-map _ _ _ (λ x h. h.1) other);
          distinct = (All-map _ _ _ (λ x h. h.0) other, f.distinct);
        }

abbrev pub Has : Bytes → List Bytes → Type 0
Has q [] = ⊥
Has q (p ∷ ps) = (p ≡ q) ⊎ Has q ps

-- A candidate that exists is marked already or among the new ones.
abbrev Covers : (Bytes → Bool) → GoMap Bytes Bool → List Bytes → Bytes → Type 0
Covers exists seen new q = exists q ≡ true → (is_marked seen q ≡ true) ⊎ Has q new

Covers-more :
    (exists : Bytes → Bool) (seen : GoMap Bytes Bool) (new : List Bytes) (p q : Bytes)
    → Covers exists (insert seen p true) new q
    → Covers exists seen (p ∷ new) q
Covers-more exists seen new p q c e = elim (c e) [
  | inr h ↦ inr (inr h)
  | inl m ↦ elim (Bool-cases (p == q)) [
    | inl same ↦ inr (inl ((bytes_beq_iff p q).0 same))
    | inr differ ↦ inl (rw (is_marked-insert seen p q, differ) at m)
  ]
]

new_paths-Covers :
    (exists : Bytes → Bool) (ps : List Bytes) (seen : GoMap Bytes Bool)
    → All (Covers exists seen (new_paths exists ps seen)) ps
unfolding new_paths
new_paths-Covers exists [] seen = tt
new_paths-Covers exists (p ∷ ps) seen =
    from (exists p && not (is_marked seen p)) refl (new_paths-Covers exists ps (insert seen p true))
      (new_paths-Covers exists ps seen)
  where
    from :
        (b : Bool)
        → (exists p && not (is_marked seen p)) ≡ b
        → All (Covers exists (insert seen p true) (new_paths exists ps (insert seen p true))) ps
        → All (Covers exists seen (new_paths exists ps seen)) ps
        → All
            (Covers exists seen (elim b [
              | true ↦ p ∷ new_paths exists ps (insert seen p true)
              | false ↦ new_paths exists ps seen
            ]))
            (p ∷ ps)
    from false q f g = ((λ e. inl (ground arith)), g)
    from true q f g =
        ((λ e. inr (inl refl)), All-map _ _ ps (λ x c. Covers-more exists seen _ p x c) f)

marked-Has : (ps : List Bytes) (q : Bytes) → is_marked (mark_all ps) q ≡ true → Has q ps
unfolding mark_all is_marked lookup
marked-Has [] q h = cc (h)
marked-Has (p ∷ ps) q h = elim (Bool-cases (p == q)) [
  | inl e ↦ inl ((bytes_beq_iff p q).0 e)
  | inr e ↦ inr (marked-Has ps q (rw (is_marked-insert (mark_all ps) p q, e) at h))
]

unmarked-Lacks : (ps : List Bytes) (q : Bytes) → is_marked (mark_all ps) q ≡ false → Lacks q ps
unfolding mark_all is_marked lookup
unmarked-Lacks [] q h = tt
unmarked-Lacks (p ∷ ps) q h =
    let (ne, rest) = marked_after (mark_all ps) p q h in
    ((λ e. ne (sym e)), unmarked-Lacks ps q rest)

-- Some of the candidates, in their order.
abbrev pub InOrder : List Bytes → List Bytes → Type 0
InOrder [] cs = Unit
InOrder (d ∷ ds) [] = ⊥
InOrder (d ∷ ds) (c ∷ cs) = ((d ≡ c) × InOrder ds cs) ⊎ InOrder (d ∷ ds) cs

InOrder-more : (ds : List Bytes) (c : Bytes) (cs : List Bytes) → InOrder ds cs → InOrder ds (c ∷ cs)
InOrder-more [] c cs h = tt
InOrder-more (d ∷ ds) c cs h = inr h

new_paths-InOrder :
    (exists : Bytes → Bool) (ps : List Bytes) (seen : GoMap Bytes Bool)
    → InOrder (new_paths exists ps seen) ps
unfolding new_paths
new_paths-InOrder exists [] seen = tt
new_paths-InOrder exists (p ∷ ps) seen =
    from (exists p && not (is_marked seen p)) (new_paths-InOrder exists ps (insert seen p true))
      (new_paths-InOrder exists ps seen)
  where
    from :
        (b : Bool)
        → InOrder (new_paths exists ps (insert seen p true)) ps
        → InOrder (new_paths exists ps seen) ps
        → InOrder
            (elim b [
              | true ↦ p ∷ new_paths exists ps (insert seen p true)
              | false ↦ new_paths exists ps seen
            ])
            (p ∷ ps)
    from false f g = InOrder-more (new_paths exists ps seen) p ps g
    from true f g = inl (refl, f)

join-snoc :
    (sep p : Bytes) (ps : List Bytes) (q : Bytes)
    → join sep (p ∷ ps) ++ (sep ++ q) ≡ join sep ((p ∷ ps) ++ q ∷ [])
unfolding join
join-snoc sep p [] q = refl
join-snoc sep p (r ∷ ps) q =
    rw
      (
        append_assoc p (sep ++ join sep (r ∷ ps)) (sep ++ q),
        append_assoc sep (join sep (r ∷ ps)) (sep ++ q),
        join-snoc sep r ps q,
      )
      refl

path_with-join :
    (ds : List Bytes) (path : Bytes)
    → ds ≢ []
    → path ≢ []
    → path_with ds path ≡ join (codes ":") (ds ++ path ∷ [])
path_with-join [] path given old = absurd (given refl)
path_with-join (d ∷ ds) [] given old = absurd (old refl)
path_with-join (d ∷ ds) (c ∷ path) given old = join-snoc (codes ":") d ds (c ∷ path)

path_with-alone :
    (ds : List Bytes) (path : Bytes) → ds ≢ [] → path ≡ [] → path_with ds path ≡ join (codes ":") ds
path_with-alone [] path given e = absurd (given refl)
path_with-alone (d ∷ ds) [] given e = refl
path_with-alone (d ∷ ds) (c ∷ path) given e = cc (e)

-- The PATH is the added directories and then the former PATH, where there are any, with colons between.
-- The added ones are candidates in their order; they exist, are all different and did not stand in the
-- PATH; and every candidate that exists stands there.
pub record IsExpanded (p : Process) (candidates_of : List Bytes) (path : Bytes) : Type 0 where
  pub added : List Bytes
  pub unchanged : added ≡ [] → path ≡ p.path
  pub alone : added ≢ [] → p.path ≡ [] → path ≡ join (codes ":") added
  pub put_first : added ≢ [] → p.path ≢ [] → path ≡ join (codes ":") (added ++ p.path ∷ [])
  pub chosen : InOrder added candidates_of
  pub exist : All (λ d. p.exists d ≡ true) added
  pub absent : All (λ d. Lacks d (split b':' p.path)) added
  pub distinct : Distinct added
  pub complete :
      All (λ d. p.exists d ≡ true → Has d (split b':' p.path) ⊎ Has d added) candidates_of

-- The expansion of the PATH puts directories, with colons between, before the former PATH, if there is
-- one, and leaves it as it is if it adds none. The directories are candidates, those of the
-- configuration with their ~ expanded and then the default ones, in their order; they exist, are all different and were not in the PATH; and every
-- candidate that exists is in the PATH afterwards.
pub expand_exec_path-IsExpanded :
    (p : Process) (additional : List Bytes)
    → IsExpanded p
        (map (expand_tilde p) additional ++ default_exec_paths p)
        (expand_exec_path p additional)
unfolding expand_exec_path candidates
expand_exec_path-IsExpanded p additional =
    let seen = mark_all (split b':' p.path) in
    let f = new_paths-Fresh p.exists (candidates p additional) seen in
    record {
      added = new_paths p.exists (candidates p additional) seen;
      unchanged = λ e. rw e refl;
      alone = path_with-alone (new_paths p.exists (candidates p additional) seen) p.path;
      put_first = path_with-join (new_paths p.exists (candidates p additional) seen) p.path;
      chosen = new_paths-InOrder p.exists (candidates p additional) seen;
      exist = f.exist;
      absent = All-map _ _ _ (λ d h. unmarked-Lacks (split b':' p.path) d h) f.unmarked;
      distinct = f.distinct;
      complete =
          All-map _ _ (candidates p additional)
            (λ d c e. elim (c e) [ inl m ↦ inl (marked-Has _ d m) | inr h ↦ inr h ])
            (new_paths-Covers p.exists (candidates p additional) seen);
    }
