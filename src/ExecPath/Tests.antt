-- ===== src/ExecPath/Tests.antt =====
-- A PATH that lacks one of two directories.
use lazyfwd.Base.{◌≡◌, refl, ◌||◌, [], ◌∷◌, ◌++◌, map, bytes_eq, bytes_beq, codes, ◌==◌}
use lazyfwd.GoMap.{lookup, insert, delete}
use lazyfwd.Text.{split, join}
use lazyfwd.ExecPath.{
  Process, linux, default_exec_paths, expand_tilde, is_marked, mark_all, new_paths, candidates,
  expand_exec_path,
}
use lazyfwd.ExecPath.Added.{IsExpanded, expand_exec_path-IsExpanded}

abbrev process : Process
process = record {
  system = linux;
  home = codes "/h";
  path = codes "/bin:/usr/local/bin";
  exists = λ d. (d == codes "/usr/local/bin") || (d == codes "/opt/t");
  join_path = join (codes "/");
}

expand_exec_path-IsExpanded_example :
    IsExpanded process
      (map (expand_tilde process) (codes "/opt/t" ∷ codes "/opt/t" ∷ [])
        ++ default_exec_paths process)
      (expand_exec_path process (codes "/opt/t" ∷ codes "/opt/t" ∷ []))
expand_exec_path-IsExpanded_example =
    expand_exec_path-IsExpanded process (codes "/opt/t" ∷ codes "/opt/t" ∷ [])

expanded :
    expand_exec_path process (codes "/opt/t" ∷ codes "/opt/t" ∷ [])
    ≡ codes "/opt/t:/bin:/usr/local/bin"
unfolding expand_exec_path new_paths candidates default_exec_paths expand_tilde mark_all is_marked
    split join lookup insert delete bytes_beq
expanded = refl

-- `~user` is not another user's home.
other_home : expand_tilde process (codes "~t/bin") ≡ codes "/h/t/bin"
unfolding expand_tilde join
other_home = refl
