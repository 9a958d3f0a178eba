-- ===== src/ExecPath.antt =====
-- internal/config/execpath.go: the search path of the process, to which the existing directories of
-- the configuration and of the system are put first. The file system and `filepath.Join` are an
-- argument.
pub mod Added
mod Tests
use lazyfwd.Base.{
  Bool, true, false, not, ◌&&◌, Option, none, some, List, [], ◌∷◌, ◌++◌, map, Bytes, bytes_eq,
  codes, is_empty, nat_beq, if◌then◌else◌,
}
use lazyfwd.GoMap.{GoMap, lookup, insert}
use lazyfwd.Text.{split, join}

-- `runtime.GOOS`
pub data System : Type 0 where
  darwin linux other : System

-- The environment of the process: its system, home directory and PATH, which are empty where they
-- are not set, which files there are, and `filepath.Join`.
pub record Process : Type 0 where
  pub system : System
  pub home : Bytes
  pub path : Bytes
  pub exists : Bytes → Bool
  pub join_path : List Bytes → Bytes

abbrev pub system_paths : System → List Bytes
system_paths darwin =
    codes "/usr/local/bin" ∷ codes "/opt/homebrew/bin" ∷ codes "/opt/homebrew/sbin" ∷ []
system_paths linux = codes "/usr/local/bin" ∷ codes "/usr/local/sbin" ∷ codes "/snap/bin" ∷ []
system_paths other = codes "/usr/local/bin" ∷ []

abbrev pub home_paths : Process → List Bytes
home_paths p =
    if not (is_empty p.home)
    then p.join_path (p.home ∷ codes "bin" ∷ [])
      ∷ p.join_path (p.home ∷ codes ".local" ∷ codes "bin" ∷ [])
      ∷ []
    else []

-- `DefaultExecPaths`
unfoldable pub default_exec_paths : Process → List Bytes
default_exec_paths p = system_paths p.system ++ home_paths p

-- `expandTilde`; an empty home is one that is not known.
unfoldable pub expand_tilde : Process → Bytes → Bytes
expand_tilde p [] = []
expand_tilde p (c ∷ s) =
    if nat_beq c b'~' && not (is_empty p.home) then p.join_path (p.home ∷ s ∷ []) else c ∷ s

-- `existingPaths[p]`
unfoldable pub is_marked : GoMap Bytes Bool → Bytes → Bool
is_marked seen p = elim (lookup seen p) [ none ↦ false | some b ↦ b ]

unfoldable pub mark_all : List Bytes → GoMap Bytes Bool
mark_all [] = []
mark_all (p ∷ ps) = insert (mark_all ps) p true

-- The loops over candidates: those that exist and are not marked yet, each once.
unfoldable pub new_paths : (Bytes → Bool) → List Bytes → GoMap Bytes Bool → List Bytes
new_paths exists [] seen = []
new_paths exists (p ∷ ps) seen = elim (exists p && not (is_marked seen p)) [
  | true ↦ p ∷ new_paths exists ps (insert seen p true)
  | false ↦ new_paths exists ps seen
]

-- The candidates: of the configuration first, then the default ones.
unfoldable pub candidates : Process → List Bytes → List Bytes
candidates p additional = map (expand_tilde p) additional ++ default_exec_paths p

abbrev pub path_with : List Bytes → Bytes → Bytes
path_with [] path = path
path_with (p ∷ ps) path =
    let expanded = join (codes ":") (p ∷ ps) in
    if not (is_empty path) then expanded ++ (codes ":" ++ path) else expanded

-- `ExpandExecPath`: the PATH afterwards.
unfoldable pub expand_exec_path : Process → List Bytes → Bytes
expand_exec_path p additional =
    path_with (new_paths p.exists (candidates p additional) (mark_all (split b':' p.path))) p.path
