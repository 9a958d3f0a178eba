-- ===== src/DynamicRoute/RoundTrip.antt =====
-- A hostname that is spelled from its parts is read back.
use lazyfwd.Base.{
  ℕ, ◌≤◌, ◌≡◌, ◌≢◌, refl, sym, ap, ◌∙◌, Bool, true, false, none, some, [], ◌∷◌, ◌++◌, arith, Bytes,
  codes, length, All, All-append, all_of, is_empty, take-append_length, drop-append_add,
}
use lazyfwd.Base.Int.{pos}
use lazyfwd.Text.{has_prefix, last_index, atoi, format_nat, is_digit}
use lazyfwd.Text.Search.{has_suffix-append, trim_suffix-append, last_index-split, last_index_absent}
use lazyfwd.Text.Decimal.{atoi-format_nat, format_nat-digits, format_nat-ne-nil}
use lazyfwd.Config.{is_bad_port}
use lazyfwd.DynamicRoute.{
  cx_mark, ns_mark, svc_mark, pod_mark, dash, with_port, split_target, check_parts, split_marker,
  split_context, parse_dynamic_hostname,
}
use lazyfwd.DynamicRoute.Sound.{Parts, marker, spell, spell_target, route_of}

-- No dot, as in the names that Kubernetes gives to services and namespaces.
abbrev pub IsLabel : Bytes → Type 0
IsLabel s = All (λ c. c ≢ b'.') s

-- A text with no dot does not go on with a marker's end.
has_prefix_absent :
    (c : ℕ) (p r b : Bytes) → All (λ x. x ≢ c) b → has_prefix (p ++ (c ∷ r)) b ≡ false
unfolding has_prefix
has_prefix_absent c [] r [] h = refl
has_prefix_absent c [] r (x ∷ b) h = ground (arith, h.0)
has_prefix_absent c (y ∷ p) r [] h = refl
has_prefix_absent c (y ∷ p) r (x ∷ b) h = ground (arith, has_prefix_absent c p r b h.1)

-- Behind its first dot, a marker and a label hold no further marker.
abbrev tail_of : Bool → Bytes
tail_of true = codes "svc."
tail_of false = codes "pod."

no_marker_behind :
    (b : Bool) (s : Bytes) → IsLabel s → last_index (tail_of b ++ s) (marker b) ≡ none
unfolding last_index has_prefix
no_marker_behind true s h =
    rw (last_index_absent b'.' (codes "svc.") s h)
      (rw (has_prefix_absent b'.' (codes "svc") [] s h) refl)
no_marker_behind false s h =
    rw (last_index_absent b'.' (codes "pod.") s h)
      (rw (has_prefix_absent b'.' (codes "pod") [] s h) refl)

-- The marker of a service does not stand in the text that names a pod.
svc_absent :
    (t s : Bytes) → IsLabel t → IsLabel s → last_index (t ++ (pod_mark ++ s)) svc_mark ≡ none
unfolding last_index has_prefix
svc_absent [] s h k =
    rw (last_index_absent b'.' (codes "svc.") s k)
      (rw (has_prefix_absent b'.' (codes "svc") [] s k) refl)
svc_absent (x ∷ t) s h k = rw (svc_absent t s h.1 k) (ground (arith, h.0))

digits-Lacks :
    (c : ℕ) (s : Bytes) → is_digit c ≡ false → all_of is_digit s ≡ true → All (λ x. x ≢ c) s
unfolding all_of
digits-Lacks c [] d h = tt
digits-Lacks c (x ∷ s) d h =
    ((λ e. ground (arith, ap is_digit e)), digits-Lacks c s d (ground arith))

-- The condition under which the parts are told apart again: a port in range, names that are not
-- empty, no dot in the namespace nor in the name of a pod, and no second `.ns.` in the context.
pub record IsReadable (p : Parts) (port : ℕ) : Type 0 where
  pub name_given : p.name ≢ []
  pub namespace_given : p.namespace ≢ []
  pub context_given : p.context ≢ []
  pub namespace_label : IsLabel p.namespace
  pub pod_label : p.is_service ≡ false → IsLabel p.name
  pub context_plain : last_index (codes "ns." ++ p.context) ns_mark ≡ none
  pub port_text : p.port_str ≡ format_nat port
  pub port_positive : 1 ≤ port
  pub port_bound : port ≤ 65535

is_empty-false : (s : Bytes) → s ≢ [] → is_empty s ≡ false
is_empty-false [] h = absurd (h refl)
is_empty-false (x ∷ s) h = refl

is_empty_append : (s t : Bytes) → s ≢ [] → is_empty (s ++ t) ≡ false
is_empty_append [] t h = absurd (h refl)
is_empty_append (x ∷ s) t h = refl

marker_at :
    (b : Bool) (t ns : Bytes)
    → IsLabel ns
    → last_index (t ++ (marker b ++ ns)) (marker b) ≡ some (length t)
marker_at true t ns h = last_index-split t b'.' (codes "svc.") ns (no_marker_behind true ns h)
marker_at false t ns h = last_index-split t b'.' (codes "pod.") ns (no_marker_behind false ns h)

split_marker_at :
    (b : Bool) (t ns context scheme : Bytes)
    → IsLabel ns
    → (b ≡ false → IsLabel t)
    → let core = t ++ (marker b ++ ns) in
      split_marker context core (last_index core svc_mark) (last_index core pod_mark) scheme
      ≡ check_parts b context ns t scheme
unfolding split_marker
split_marker_at true t ns context scheme h k = rw (
  marker_at true t ns h,
  take-append_length t (svc_mark ++ ns),
  drop-append_add t (svc_mark ++ ns) 5,
)
split_marker_at false t ns context scheme h k = rw (
  svc_absent t ns (k refl) h,
  marker_at false t ns h,
  take-append_length t (pod_mark ++ ns),
  drop-append_add t (pod_mark ++ ns) 5,
)

module _ (p : Parts) (port : ℕ) (scheme : Bytes) (ok : IsReadable p port) where
  target : Bytes
  target = p.name ++ (dash ++ p.port_str)

  port_str-digits : all_of is_digit p.port_str ≡ true
  port_str-digits = rw ok.port_text (format_nat-digits port)

  port_str_given : p.port_str ≢ []
  port_str_given e = format_nat-ne-nil port (sym ok.port_text ∙ e)

  port_str_read : atoi p.port_str ≡ some (pos port)
  port_str_read = rw ok.port_text (atoi-format_nat port (omega (arith, ok.port_bound)))

  good_port : is_bad_port (pos port) ≡ false
  unfolding is_bad_port
  good_port = ground (arith, ok.port_positive, ok.port_bound)

  target_given : is_empty target ≡ false
  unfolding target
  target_given = is_empty_append p.name _ ok.name_given

  split_target-spell :
      split_target p.is_service p.context p.namespace target (last_index target dash) scheme
      ≡ some (route_of p (pos port) scheme)
  unfolding split_target with_port target is_bad_port
  split_target-spell =
      rw
        (
          last_index-split p.name b'-' [] p.port_str (
              last_index_absent b'-' [] p.port_str
                (digits-Lacks b'-' p.port_str refl port_str-digits)),
          take-append_length p.name (dash ++ p.port_str),
          drop-append_add p.name (dash ++ p.port_str) 1,
          is_empty-false p.name ok.name_given,
        )
        (rw (is_empty-false p.port_str port_str_given, port_str_read) (rw good_port refl))

  check_parts-spell :
      check_parts p.is_service p.context p.namespace target scheme
      ≡ some (route_of p (pos port) scheme)
  unfolding check_parts
  check_parts-spell =
      rw
        (
          is_empty-false p.context ok.context_given,
          is_empty-false p.namespace ok.namespace_given,
          target_given,
        )
        split_target-spell

  target-IsLabel : p.is_service ≡ false → IsLabel target
  unfolding target
  target-IsLabel e =
      All-append _ p.name (dash ++ p.port_str) (ok.pod_label e)
        ((λ q. ground (arith, q)), digits-Lacks b'.' p.port_str refl port_str-digits)

  split_marker-spell :
      split_marker p.context
        (spell_target p)
        (last_index (spell_target p) svc_mark)
        (last_index (spell_target p) pod_mark)
        scheme
      ≡ some (route_of p (pos port) scheme)
  unfolding target
  split_marker-spell =
      split_marker_at p.is_service target p.namespace p.context scheme ok.namespace_label
        target-IsLabel
      ∙ check_parts-spell

  split_context-spell :
      let core = spell_target p ++ (ns_mark ++ p.context) in
      split_context core (last_index core ns_mark) scheme ≡ some (route_of p (pos port) scheme)
  unfolding split_context
  split_context-spell =
      let text : Bytes = spell_target p in
      rw
        (
          last_index-split text b'.' (codes "ns.") p.context ok.context_plain,
          take-append_length text (ns_mark ++ p.context),
          drop-append_add text (ns_mark ++ p.context) 4,
        )
        split_marker-spell

-- A hostname that is spelled from readable parts, with a dynamic host that is not empty, is parsed to the route of these parts, with the
-- scheme that the caller gives.
pub parse_dynamic_hostname-spell :
    (p : Parts) (port : ℕ) (dynamic_host scheme : Bytes)
    → dynamic_host ≢ []
    → IsReadable p port
    → parse_dynamic_hostname (spell p dynamic_host) dynamic_host scheme
      ≡ some (route_of p (pos port) scheme)
unfolding parse_dynamic_hostname
parse_dynamic_hostname-spell p port dynamic_host scheme given ok =
    let suffix : Bytes = cx_mark ++ dynamic_host in
    let core : Bytes = spell_target p ++ (ns_mark ++ p.context) in
    rw
      (
        is_empty-false dynamic_host given,
        has_suffix-append suffix core,
        trim_suffix-append suffix core,
      )
      (split_context-spell p port scheme ok)
