-- ===== src/Config/Load.antt =====
-- internal/config/config.go, `LoadConfig` and `resolveKubeconfigs`. The file, the parser of YAML, the
-- environment, `filepath.Join` and `strings.TrimSpace` are an argument.
use lazyfwd.Base.{
  ◌≡◌, refl, List, [], ◌∷◌, Bytes, bytes_eq, codes, drop, is_empty, not, if◌then◌else◌, Result, ok,
  err, ◌==◌, subst,
}
use lazyfwd.Text.{has_prefix, split}
use lazyfwd.Config.{Config, default_config}
use lazyfwd.Config.Errors.{ConfigError}
use lazyfwd.Config.Validate.{validate}
use lazyfwd.Config.Validate.Spec.{IsValid}
use lazyfwd.Config.Validate.Sound.{validate_sound}

-- What the process finds outside: the contents of the file and what `yaml.Unmarshal` makes of them on
-- top of a configuration, each with the text of its error, and the variable KUBECONFIG, empty where
-- it is not set.
pub record Outside : Type 0 where
  pub file : Result Bytes Bytes
  pub unmarshal : Bytes → Config → Result Bytes Config
  pub kubeconfig_env : Bytes
  pub home : Bytes
  pub join_path : List Bytes → Bytes
  pub trim_space : Bytes → Bytes

pub data LoadError : Type 0 where
  unreadable : Bytes → LoadError
  unparsable : Bytes → LoadError
  invalid : ConfigError → LoadError

abbrev pub in_home : Outside → Bytes → Bytes
in_home o p =
    if has_prefix p (codes "~/")
    then o.join_path (o.home ∷ drop 2 p ∷ [])
    else if p == codes "~"
    then o.home
    else p

-- The loop over the paths: blank ones are left out.
unfoldable pub resolve_paths : Outside → List Bytes → List Bytes
resolve_paths o [] = []
resolve_paths o (p ∷ ps) =
    let rest = resolve_paths o ps in
    if is_empty (o.trim_space p) then rest else in_home o (o.trim_space p) ∷ rest

-- `resolveKubeconfigs`; `filepath.SplitList` splits at colons, and the text is not empty.
unfoldable pub resolve_kubeconfigs : Outside → Bytes → List Bytes
resolve_kubeconfigs o value =
    if not (is_empty value)
    then resolve_paths o (split b':' value)
    else if not (is_empty o.kubeconfig_env)
    then resolve_paths o (split b':' o.kubeconfig_env)
    else o.join_path (o.home ∷ codes ".kube" ∷ codes "config" ∷ []) ∷ []

abbrev pub with_kubeconfigs : List Bytes → List Bytes → Config → Config
with_kubeconfigs http tcp c = record c {
  http = record c.http { k8s = record c.http.k8s { resolved_kubeconfigs = http } };
  tcp = record c.tcp { k8s = record c.tcp.k8s { resolved_kubeconfigs = tcp } };
}

-- The paths of TCP are those of HTTP unless it has its own.
unfoldable pub resolved : Outside → Config → Config
resolved o c =
    let http = resolve_kubeconfigs o c.http.k8s.kubeconfig in
    with_kubeconfigs http
      (if not (is_empty c.tcp.k8s.kubeconfig)
        then resolve_kubeconfigs o c.tcp.k8s.kubeconfig
        else http)
      c

checked : Config → Result ConfigError (Unit {0}) → Result LoadError Config
checked c (err e) = err (invalid e)
checked c (ok u) = ok c

parsed : Outside → Result Bytes Config → Result LoadError Config
unfolding checked
parsed o (err e) = err (unparsable e)
parsed o (ok c) = checked (resolved o c) (validate (resolved o c))

-- `LoadConfig`
unfoldable pub load_config : Outside → Result LoadError Config
unfolding parsed
load_config o = elim o.file [
  | err e ↦ err (unreadable e)
  | ok text ↦ parsed o (o.unmarshal text default_config)
]

checked-IsValid :
    (c d : Config) (v : Result ConfigError (Unit {0}))
    → validate c ≡ v
    → checked c v ≡ ok d
    → IsValid d
unfolding checked
checked-IsValid c d (err e) q h = cc (h)
checked-IsValid c d (ok u) q h =
    let same : c ≡ d = cc (h) in subst IsValid same (validate_sound c q)

parsed-IsValid :
    (o : Outside) (c : Config) (r : Result Bytes Config) → parsed o r ≡ ok c → IsValid c
unfolding parsed
parsed-IsValid o c (err e) h = cc (h)
parsed-IsValid o c (ok d) h = checked-IsValid (resolved o d) c _ refl h

-- A configuration that is loaded satisfies the specification of valid ones.
pub load_config-IsValid : (o : Outside) (c : Config) → load_config o ≡ ok c → IsValid c
unfolding load_config
load_config-IsValid o c h = from o.file h
  where
    from :
        (r : Result Bytes Bytes)
        → (elim r as (λ x. Result LoadError Config) [
          | err e ↦ err (unreadable e)
          | ok text ↦ parsed o (o.unmarshal text default_config)
        ])
          ≡ ok c
        → IsValid c
    from (err e) q = cc (q)
    from (ok text) q = parsed-IsValid o c (o.unmarshal text default_config) q
