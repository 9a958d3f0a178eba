-- ===== src/DynamicRoute.antt =====
-- internal/tunnelmgr/dynamic_route.go: routes that a hostname spells out,
-- `{name}-{port}.{svc|pod}.{namespace}.ns.{context}.cx.{dynamic_host}`. `(nil, false)` is `none`.
pub mod Sound
pub mod RoundTrip
pub mod Valid
mod Tests
use lazyfwd.Base.{
  ℕ, ◌+◌, Bool, true, false, ◌||◌, Option, none, some, List, [], ◌++◌, Bytes, codes, length, take,
  drop, is_empty, if◌then◌else◌,
}
use lazyfwd.Base.Int.{ℤ}
use lazyfwd.Text.{last_index, has_suffix, trim_suffix, atoi}
use lazyfwd.Config.{K8sRouteConfig, is_bad_port}

abbrev pub cx_mark : Bytes
cx_mark = codes ".cx."

abbrev pub ns_mark : Bytes
ns_mark = codes ".ns."

abbrev pub svc_mark : Bytes
svc_mark = codes ".svc."

abbrev pub pod_mark : Bytes
pod_mark = codes ".pod."

abbrev pub dash : Bytes
dash = codes "-"

-- The config that is filled in: the name goes to one of two fields.
unfoldable pub build_route : Bool → Bytes → Bytes → Bytes → ℤ → Bytes → K8sRouteConfig
build_route is_service name context namespace port scheme = record {
  context = context;
  namespace = namespace;
  service = if is_service then name else [];
  pod = if is_service then [] else name;
  port = port;
  scheme = scheme;
}

-- From `strconv.Atoi` on.
with_port : Bool → Bytes → Bytes → Bytes → Option ℤ → Bytes → Option K8sRouteConfig
unfolding build_route
with_port is_service name context namespace none scheme = none
with_port is_service name context namespace (some p) scheme =
    if is_bad_port p then none else some (build_route is_service name context namespace p scheme)

-- From the split of `targetPort` at its last dash on.
split_target : Bool → Bytes → Bytes → Bytes → Option ℕ → Bytes → Option K8sRouteConfig
unfolding with_port
split_target is_service context namespace target_port none scheme = none
split_target is_service context namespace target_port (some i) scheme =
    let name = take i target_port in
    let port_str = drop (i + 1) target_port in
    if is_empty name || is_empty port_str
    then none
    else with_port is_service name context namespace (atoi port_str) scheme

-- From the validation of the extracted parts on.
check_parts : Bool → Bytes → Bytes → Bytes → Bytes → Option K8sRouteConfig
unfolding split_target
check_parts is_service context namespace target_port scheme =
    if is_empty context || is_empty namespace || is_empty target_port
    then none
    else split_target is_service context namespace target_port (last_index target_port dash) scheme

-- The `.svc.` marker is tried first, then `.pod.`.
split_marker : Bytes → Bytes → Option ℕ → Option ℕ → Bytes → Option K8sRouteConfig
unfolding check_parts
split_marker context core (some i) pod_idx scheme =
    check_parts true context (drop (i + 5) core) (take i core) scheme
split_marker context core none (some i) scheme =
    check_parts false context (drop (i + 5) core) (take i core) scheme
split_marker context core none none scheme = none

-- From the search for `.ns.` on.
split_context : Bytes → Option ℕ → Bytes → Option K8sRouteConfig
unfolding split_marker
split_context core none scheme = none
split_context core (some i) scheme =
    let rest = take i core in
    split_marker (drop (i + 4) core) rest (last_index rest svc_mark) (last_index rest pod_mark)
      scheme

-- `ParseDynamicHostname`
unfoldable pub parse_dynamic_hostname : Bytes → Bytes → Bytes → Option K8sRouteConfig
unfolding split_context
parse_dynamic_hostname hostname dynamic_host scheme =
    let suffix = cx_mark ++ dynamic_host in
    if is_empty dynamic_host
    then none
    else if has_suffix suffix hostname
    then (let core = trim_suffix suffix hostname in
        split_context core (last_index core ns_mark) scheme)
    else none
