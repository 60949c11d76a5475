-- ===== src/Dependencies/Changes/Files.antt =====
-- What a change set amounts to: the roles of its files, and the failure on a changed playbook.
use configuration.Base.{
  ◌≡◌, refl, inl, inr, Bool, false, ◌&&◌, ◌||◌, List, [], ◌∷◌, ◌++◌, String, arith, ◌==◌, string_eq,
  list_eq, eq_iff, if◌then◌else◌, Result, ok, raised, name_error, for_each, for_each_adds,
  >>=-eq-ok, any, contains, contains-insert, Bool-cases,
}
use configuration.Dependencies.Changes.{
  FilePath, get_role_name_from_file, is_below, is_yml_in, add_role_of, change_set_to_roles,
  add_play_of, get_plays,
}

-- The role name of a path is the part behind its first part "roles".
pub get_role_name_from_file_lem :
    (dirs : FilePath) (name : String) (rest : FilePath)
    → contains dirs "roles" ≡ false
    → get_role_name_from_file (dirs ++ "roles" ∷ name ∷ rest) ≡ ok name
unfolding get_role_name_from_file
get_role_name_from_file_lem [] name rest h = refl
get_role_name_from_file_lem (d ∷ dirs) name rest h =
    ground (arith, get_role_name_from_file_lem dirs name rest, eq_iff d "roles")

abbrev is_ok : String → Result String → Bool
is_ok name (ok n) = n == name
is_ok name (raised e) = false

module _ (tree : List FilePath) (git_dir : FilePath) where
  -- A file of the change set lies below a directory of roles and names a role.
  abbrev pub changes_role : String → FilePath → FilePath → Bool
  changes_role name role_dir f =
      contains tree (git_dir ++ f)
      && (is_below (git_dir ++ role_dir) (git_dir ++ f)
          && is_ok name (get_role_name_from_file (git_dir ++ f)))

  -- A file of the change set is a playbook of a directory.
  abbrev pub changes_play : FilePath → FilePath → Bool
  changes_play play_dir f =
      contains tree (git_dir ++ f) && is_yml_in (git_dir ++ play_dir) (git_dir ++ f)

  see-add_role_of :
      (name : String) (role_dir f : FilePath) (items items' : List String)
      → add_role_of tree git_dir role_dir f items ≡ ok items'
      → contains items' name ≡ (changes_role name role_dir f || contains items name)
  unfolding add_role_of
  see-add_role_of name role_dir f items items' h =
      let path = git_dir ++ f in
      elim (Bool-cases (contains tree path && is_below (git_dir ++ role_dir) path)) [
        | inl below ↦
            let (r, e, done) = >>=-eq-ok (get_role_name_from_file path) _ (rw below at h) in
            ground (arith, below, e, done, contains-insert r name items)
        | inr other ↦ let same : ok items ≡ ok items' = rw other at h in ground (arith, other, same)
      ]

  -- `change_set_to_roles` returns exactly the roles that some file of the change set names, among
  -- the files that exist below a directory of roles.
  pub contains-change_set_to_roles :
      (files roles_dirs : List FilePath) (items : List String) (name : String)
      → change_set_to_roles tree git_dir files roles_dirs ≡ ok items
      → contains items name ≡ any (λ d. any (changes_role name d) files) roles_dirs
  unfolding change_set_to_roles
  contains-change_set_to_roles files roles_dirs items name h = ground (
    arith,
    for_each_adds (λ (xs : List String). contains xs name) (λ d. any (changes_role name d) files) _
        (λ d.
          for_each_adds (λ (xs : List String). contains xs name) (changes_role name d) _
            (see-add_role_of name d) files)
        roles_dirs [] items h,
  )

  plays_of_dir :
      (play_dir : FilePath) (files : List FilePath) (plays : List String)
      → for_each (add_play_of tree git_dir play_dir) files plays
        ≡ (if any (changes_play play_dir) files then raised name_error else ok plays)
  unfolding add_play_of
  plays_of_dir play_dir [] plays = refl
  plays_of_dir play_dir (f ∷ files) plays = ground (arith, plays_of_dir play_dir files plays)

  plays_of_dirs :
      (files dirs : List FilePath) (plays : List String)
      → for_each (λ d. for_each (add_play_of tree git_dir d) files) dirs plays
        ≡ (if any (λ d. any (changes_play d) files) dirs then raised name_error else ok plays)
  plays_of_dirs files [] plays = refl
  plays_of_dirs files (d ∷ dirs) plays =
      ground (arith, plays_of_dir d files plays, plays_of_dirs files dirs plays)

  -- `get_plays` never returns a play: a change set with a playbook of one of the directories ends in
  -- a `NameError`, any other in no plays.
  pub get_plays_lem :
      (files dirs : List FilePath)
      → get_plays tree git_dir files dirs
        ≡ (if any (λ d. any (changes_play d) files) dirs then raised name_error else ok [])
  unfolding get_plays
  get_plays_lem files dirs = plays_of_dirs files dirs []
