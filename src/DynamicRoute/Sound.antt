-- ===== src/DynamicRoute/Sound.antt =====
-- What a hostname that `ParseDynamicHostname` accepts looks like.
use lazyfwd.Base.{
  ℕ, ◌+◌, ◌≡◌, ◌≢◌, refl, Bool, true, false, ◌||◌, Option, none, some, [], ◌∷◌, ◌++◌, arith, Bytes,
  take, drop, is_empty, Bool-cases, Option-cases, inl, inr,
}
use lazyfwd.Base.Int.{ℤ}
use lazyfwd.Text.{last_index, has_suffix, trim_suffix, atoi}
use lazyfwd.Text.Search.{last_index_sound, has_suffix_sound}
use lazyfwd.Config.{K8sRouteConfig, is_bad_port}
use lazyfwd.DynamicRoute.{
  cx_mark, ns_mark, svc_mark, pod_mark, dash, build_route, with_port, split_target, check_parts,
  split_marker, split_context, parse_dynamic_hostname,
}

abbrev pub marker : Bool → Bytes
marker true = svc_mark
marker false = pod_mark

-- The parts of a dynamic hostname.
pub record Parts : Type 0 where
  pub is_service : Bool
  pub name : Bytes
  pub port_str : Bytes
  pub namespace : Bytes
  pub context : Bytes

-- The text before `.ns.`
abbrev pub spell_target : Parts → Bytes
spell_target p = (p.name ++ (dash ++ p.port_str)) ++ (marker p.is_service ++ p.namespace)

-- `{name}-{port}.{svc|pod}.{namespace}.ns.{context}.cx.{dynamic_host}`
abbrev pub spell : Parts → Bytes → Bytes
spell p dynamic_host = (spell_target p ++ (ns_mark ++ p.context)) ++ (cx_mark ++ dynamic_host)

-- The route of the parts, and what the parts satisfy.
abbrev pub route_of : Parts → ℤ → Bytes → K8sRouteConfig
route_of p port scheme = build_route p.is_service p.name p.context p.namespace port scheme

pub record AreGiven (p : Parts) (port : ℤ) : Type 0 where
  pub name_given : p.name ≢ []
  pub namespace_given : p.namespace ≢ []
  pub context_given : p.context ≢ []
  pub port_read : atoi p.port_str ≡ some port
  pub port_valid : is_bad_port port ≡ false

not_is_empty : (s : Bytes) → is_empty s ≡ false → s ≢ []
not_is_empty [] h = cc
not_is_empty (x ∷ s) h = cc

-- The text of `target_port` that is split at its last dash.
record Target (is_service : Bool) (context namespace target_port scheme : Bytes)
    (r : K8sRouteConfig) : Type 0 where
  parts : Parts
  port : ℤ
  kind : parts.is_service ≡ is_service
  same_context : parts.context ≡ context
  same_namespace : parts.namespace ≡ namespace
  spelled : target_port ≡ parts.name ++ (dash ++ parts.port_str)
  given : AreGiven parts port
  result : r ≡ route_of parts port scheme

with_port_sound :
    (b : Bool) (name context namespace : Bytes) (o : Option ℤ) (scheme : Bytes) (r : K8sRouteConfig)
    → with_port b name context namespace o scheme ≡ some r
    → (p : ℤ) × (o ≡ some p)
      × (is_bad_port p ≡ false)
      × (r ≡ build_route b name context namespace p scheme)
unfolding with_port
with_port_sound b name context namespace none scheme r h = cc
with_port_sound b name context namespace (some p) scheme r h = elim (Bool-cases (is_bad_port p)) [
  | inl e ↦ cc (rw e at h)
  | inr e ↦ (p, refl, e, ground arith)
]

split_target_sound :
    (b : Bool) (context namespace target_port scheme : Bytes) (r : K8sRouteConfig)
    → context ≢ []
    → namespace ≢ []
    → split_target b context namespace target_port (last_index target_port dash) scheme ≡ some r
    → Target b context namespace target_port scheme r
unfolding split_target
split_target_sound b context namespace target_port scheme r cg ng h =
    elim (Option-cases (last_index target_port dash)) [
      | inl e ↦ cc (rw e at h)
      | inr (i, e) ↦ split_at i e (rw e at h)
    ]
  where
    split_at :
        (i : ℕ)
        → last_index target_port dash ≡ some i
        → split_target b context namespace target_port (some i) scheme ≡ some r
        → Target b context namespace target_port scheme r
    split_at i e h' =
        let name = take i target_port in
        let port_str = drop (i + 1) target_port in
        elim (Bool-cases (is_empty name || is_empty port_str)) [
          | inl bad ↦ cc (rw bad at h')
          | inr good ↦
              let (p, read, valid, result) =
                with_port_sound b name context namespace (atoi port_str) scheme r (rw good at h') in
              record {
                parts = record {
                  is_service = b;
                  name = name;
                  port_str = port_str;
                  namespace = namespace;
                  context = context;
                };
                port = p;
                kind = refl;
                same_context = refl;
                same_namespace = refl;
                spelled = last_index_sound target_port dash i e;
                given = record {
                  name_given = not_is_empty name (ground arith);
                  namespace_given = ng;
                  context_given = cg;
                  port_read = read;
                  port_valid = valid;
                };
                result = result;
              }
        ]

check_parts_sound :
    (b : Bool) (context namespace target_port scheme : Bytes) (r : K8sRouteConfig)
    → check_parts b context namespace target_port scheme ≡ some r
    → Target b context namespace target_port scheme r
unfolding check_parts
check_parts_sound b context namespace target_port scheme r h =
    elim (Bool-cases (is_empty context || is_empty namespace || is_empty target_port)) [
      | inl bad ↦ cc (rw bad at h)
      | inr good ↦
          split_target_sound b context namespace target_port scheme r
            (not_is_empty context (ground arith)) (not_is_empty namespace (ground arith))
            (rw good at h)
    ]

-- The text before `.ns.`, with its marker.
record Core (context core scheme : Bytes) (r : K8sRouteConfig) : Type 0 where
  parts : Parts
  port : ℤ
  same_context : parts.context ≡ context
  spelled : core ≡ spell_target parts
  given : AreGiven parts port
  result : r ≡ route_of parts port scheme

marker-split :
    (b : Bool) (core : Bytes) (i : ℕ)
    → last_index core (marker b) ≡ some i
    → core ≡ take i core ++ (marker b ++ drop (i + 5) core)
marker-split true core i e = last_index_sound core svc_mark i e
marker-split false core i e = last_index_sound core pod_mark i e

from_Target :
    (b : Bool) (context core scheme : Bytes) (r : K8sRouteConfig) (i : ℕ)
    → last_index core (marker b) ≡ some i
    → Target b context (drop (i + 5) core) (take i core) scheme r
    → Core context core scheme r
from_Target b context core scheme r i e t = record {
  parts = t.parts;
  port = t.port;
  same_context = t.same_context;
  spelled = cc (marker-split b core i e, t.spelled, t.same_namespace, t.kind);
  given = t.given;
  result = t.result;
}

split_marker_sound :
    (context core scheme : Bytes) (r : K8sRouteConfig)
    → split_marker context core (last_index core svc_mark) (last_index core pod_mark) scheme
      ≡ some r
    → Core context core scheme r
unfolding split_marker
split_marker_sound context core scheme r h = elim (Option-cases (last_index core svc_mark)) [
  | inr (i, e) ↦
      from_Target true context core scheme r i e
        (check_parts_sound true context _ _ scheme r (rw e at h))
  | inl e ↦ elim (Option-cases (last_index core pod_mark)) [
    | inl e' ↦ cc (rw (e, e') at h)
    | inr (i, e') ↦
        from_Target false context core scheme r i e'
          (check_parts_sound false context _ _ scheme r (rw (e, e') at h))
  ]
]

-- A dynamic route: the parts that the hostname spells, and the route that they give.
pub record IsSpelled (hostname dynamic_host scheme : Bytes) (r : K8sRouteConfig) : Type 0 where
  pub parts : Parts
  pub port : ℤ
  pub spelled : hostname ≡ spell parts dynamic_host
  pub given : AreGiven parts port
  pub result : r ≡ route_of parts port scheme

split_context_sound :
    (core scheme : Bytes) (r : K8sRouteConfig)
    → split_context core (last_index core ns_mark) scheme ≡ some r
    → (parts : Parts) × (port : ℤ) × (core ≡ spell_target parts ++ (ns_mark ++ parts.context))
      × AreGiven parts port
      × (r ≡ route_of parts port scheme)
unfolding split_context
split_context_sound core scheme r h = elim (Option-cases (last_index core ns_mark)) [
  | inl e ↦ cc (rw e at h)
  | inr (i, e) ↦
      let c = split_marker_sound (drop (i + 4) core) (take i core) scheme r (rw e at h) in
      (
        c.parts,
        c.port,
        cc (last_index_sound core ns_mark i e, c.spelled, c.same_context),
        c.given,
        c.result,
      )
]

-- What the parser accepts is spelled by parts that are not empty: the hostname is their text, the
-- port is that of the part and in range, and the route has the given scheme and exactly the name's
-- field of the kind that the marker tells.
pub parse_dynamic_hostname_sound :
    (hostname dynamic_host scheme : Bytes) (r : K8sRouteConfig)
    → parse_dynamic_hostname hostname dynamic_host scheme ≡ some r
    → IsSpelled hostname dynamic_host scheme r
unfolding parse_dynamic_hostname
parse_dynamic_hostname_sound hostname dynamic_host scheme r h =
    elim (Bool-cases (is_empty dynamic_host)) [
      | inl e ↦ cc (rw e at h)
      | inr e ↦ elim (Bool-cases (has_suffix (cx_mark ++ dynamic_host) hostname)) [
        | inr e' ↦ cc (rw (e, e') at h)
        | inl e' ↦
            let suffix : Bytes = cx_mark ++ dynamic_host in
            let core = trim_suffix suffix hostname in
            let (parts, port, c, g, res) = split_context_sound core scheme r (rw (e, e') at h) in
            record {
              parts = parts;
              port = port;
              spelled = cc (has_suffix_sound suffix hostname e', c);
              given = g;
              result = res;
            }
      ]
    ]
