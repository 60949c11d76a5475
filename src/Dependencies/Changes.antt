-- ===== src/Dependencies/Changes.antt =====
-- The files of a change set: `change_set_to_roles`, `get_plays` and the functions that read a name
-- off a path in util/parsefiles.py. A path is the list of its parts; `tree` lists the paths that
-- exist, for the globs.
pub mod Files
use configuration.Base.{
  Bool, true, false, ◌&&◌, List, [], ◌∷◌, ◌++◌, String, ◌==◌, string_eq, list_eq, if◌then◌else◌,
  Result, ok, raised, value_error, index_error, name_error, for_each, contains, insert, ◌>>=◌,
}
use configuration.Dependencies.Build.{is_yml}

abbrev pub FilePath : Type 0
FilePath = List String

abbrev first_part : List String → Result String
first_part [] = raised index_error
first_part (d ∷ ds) = ok d

-- `dirs[dirs.index("roles") + 1]`
unfoldable pub get_role_name_from_file : FilePath → Result String
get_role_name_from_file [] = raised value_error
get_role_name_from_file (d ∷ ds) =
    let rest = get_role_name_from_file ds in if d == "roles" then first_part ds else rest

-- `path` is matched by the glob `**/*` of a directory.
abbrev pub is_below : FilePath → FilePath → Bool
is_below [] [] = false
is_below [] (p ∷ path) = true
is_below (d ∷ dir) [] = false
is_below (d ∷ dir) (p ∷ path) = d == p && is_below dir path

-- `path` is matched by the glob `*.yml` of a directory.
unfoldable pub is_yml_in : FilePath → FilePath → Bool
unfolding is_yml
is_yml_in [] (p ∷ []) = is_yml p
is_yml_in (d ∷ dir) (p ∷ path) = d == p && is_yml_in dir path
is_yml_in _ _ = false

module _ (tree : List FilePath) (git_dir : FilePath) where
  unfoldable pub add_role_of : FilePath → FilePath → List String → Result (List String)
  add_role_of role_dir f items =
      if contains tree (git_dir ++ f) && is_below (git_dir ++ role_dir) (git_dir ++ f)
      then (get_role_name_from_file (git_dir ++ f) >>= λ name. ok (insert name items))
      else ok items

  unfoldable pub change_set_to_roles : List FilePath → List FilePath → Result (List String)
  unfolding add_role_of
  change_set_to_roles files roles_dirs =
      for_each (λ role_dir. for_each (add_role_of role_dir) files) roles_dirs []

  -- The name that is called, `_get_playbok_name_from_file`, is not defined: a `NameError`.
  unfoldable pub add_play_of : FilePath → FilePath → List String → Result (List String)
  unfolding is_yml_in
  add_play_of play_dir f plays =
      if contains tree (git_dir ++ f) && is_yml_in (git_dir ++ play_dir) (git_dir ++ f)
      then raised name_error
      else ok plays

  unfoldable pub get_plays : List FilePath → List FilePath → Result (List String)
  unfolding add_play_of
  get_plays files playbooks_dirs =
      for_each (λ play_dir. for_each (add_play_of play_dir) files) playbooks_dirs []
