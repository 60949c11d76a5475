-- ===== src/Dependencies/Build.antt =====
-- `build_graph` of util/parsefiles.py, with `_map_roles_to_roles` and `_map_plays_to_roles`.
-- What the script reads of the file system is given: for each directory of roles, each item's name
-- and its meta/*.yml files; for each directory of plays, each item's name and its content.
pub mod Edges
use Prim.Native.Char.{code}
use configuration.Base.{
  Bool, true, false, Option, none, some, List, [], ◌∷◌, String, ◌==◌, string_eq, nat_beq,
  if◌then◌else◌, is_empty, Result, ok, raised, ◌>>=◌, for_each,
}
use configuration.Dependencies.Yaml.{
  Yaml, null, Loaded, Name, called, open_yaml_file, has_key, get_item, iterate, get_role_name,
  hashed,
}
use configuration.Dependencies.Graph.{Node, Networkx}

pub record RoleItem : Type 0 where
  pub name : String
  pub metas : List Loaded

pub record PlayItem : Type 0 where
  pub file : String
  pub content : Loaded

-- The text before the last dot and the text behind it.
abbrev pub split_last_dot : String → Option (String × String)
split_last_dot String.[] = none
split_last_dot (String.◌∷◌ c s) = elim (split_last_dot s) [
  | some (front, back) ↦ some (String.◌∷◌ c front, back)
  | none ↦ if nat_beq (code c) b'.' then some (String.[], s) else none
]

abbrev stem_of : String → Option (String × String) → String
stem_of name none = name
stem_of name (some (front, back)) =
    if is_empty front then name else if is_empty back then name else front

-- `item.stem`
unfoldable pub stem : String → String
stem name = stem_of name (split_last_dot name)

abbrev has_suffix : String → Option (String × String) → Bool
has_suffix suffix none = false
has_suffix suffix (some (front, back)) = back == suffix

-- `item.match("*.yml")`
unfoldable pub is_yml : String → Bool
is_yml name = has_suffix "yml" (split_last_dot name)

module _ (nx : Networkx) where
  open nx use {Graph, empty, add_edge}

  -- The edge from what is used to what uses it.
  unfoldable pub add_use : String → Node → Yaml → Graph → Result Graph
  unfolding get_role_name hashed
  add_use type_2 node_1 dependent g = do
    role ← get_role_name dependent
    name ← hashed role
    ok (add_edge (record { name = name; type = type_2 }) node_1 g)

  -- `for dependent in value[key]: …`
  unfoldable pub add_all : String → String → Node → Yaml → Graph → Result Graph
  unfolding add_use get_item iterate
  add_all key type_2 node_1 value g = do
    list ← get_item key value
    dependents ← iterate list
    for_each (add_use type_2 node_1) dependents g

  -- `if key in value: …`
  unfoldable pub add_uses : String → String → Node → Yaml → Graph → Result Graph
  unfolding add_all has_key
  add_uses key type_2 node_1 value g = do
    found ← has_key key value
    if found then add_all key type_2 node_1 value g else ok g

  -- `if yaml_file is not None …`
  unfoldable pub unless_null : Yaml → Graph → Result Graph → Result Graph
  unless_null null g body = ok g
  unless_null _ g body = body

  unfoldable pub map_role_file : String → String → String → String → Loaded → Graph → Result Graph
  unfolding add_uses unless_null open_yaml_file
  map_role_file key type_1 type_2 name file g = do
    yaml_file ← open_yaml_file file
    unless_null yaml_file g
        (add_uses key type_2 (record { name = called name; type = type_1 }) yaml_file g)

  unfoldable pub map_roles_to_roles :
      List (List RoleItem) → String → String → String → Graph → Result Graph
  unfolding map_role_file
  map_roles_to_roles dirs key type_1 type_2 =
      for_each
        (for_each
          (λ (item : RoleItem). for_each (map_role_file key type_1 type_2 item.name) item.metas))
        dirs

  -- The plays of one file, whose node is `node_1`.
  unfoldable pub map_play_file : String → String → Node → Loaded → Graph → Result Graph
  unfolding add_uses unless_null open_yaml_file
  map_play_file key type_2 node_1 file g = do
    yaml_file ← open_yaml_file file
    unless_null yaml_file g
        (do plays ← iterate yaml_file; for_each (add_uses key type_2 node_1) plays g)

  unfoldable pub map_play_item : String → String → String → PlayItem → Graph → Result Graph
  unfolding map_play_file is_yml stem
  map_play_item key type_1 type_2 item g =
      if is_yml item.file
      then map_play_file key type_2 (record { name = called (stem item.file); type = type_1 })
          item.content g
      else ok g

  unfoldable pub map_plays_to_roles :
      List (List PlayItem) → String → String → String → Graph → Result Graph
  unfolding map_play_item
  map_plays_to_roles dirs key type_1 type_2 =
      for_each (for_each (map_play_item key type_1 type_2)) dirs

  unfoldable pub build_graph :
      List (List RoleItem) → List (List PlayItem) → List (List PlayItem) → Result Graph
  unfolding map_roles_to_roles map_plays_to_roles
  build_graph roles_dirs aws_play_dirs docker_play_dirs = do
    g ← map_roles_to_roles roles_dirs "dependencies" "role" "role" empty
    g' ← map_plays_to_roles aws_play_dirs "roles" "aws_playbook" "role" g
    map_plays_to_roles docker_play_dirs "roles" "docker_playbook" "role" g'
