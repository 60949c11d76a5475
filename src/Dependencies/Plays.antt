-- ===== src/Dependencies/Plays.antt =====
-- `get_dependencies`, `get_docker_plays` and `filter_docker_plays` of util/parsefiles.py.
pub mod Reach
pub mod Cover
use configuration.Base.{
  Bool, true, false, not, ◌&&◌, Option, none, some, List, [], ◌∷◌, map, String, ◌==◌, string_eq,
  if◌then◌else◌, Result, ok, raised, type_error, networkx_error, for_each, contains, insert, update,
  select, Dict, lookup, put, ◌>>=◌,
}
use configuration.Dependencies.Yaml.{Name, no_name, called, valued, name_eq}
use configuration.Dependencies.Graph.{Node, node_eq, Networkx}

abbrev pub node_names : List Node → List Name
node_names = map (λ (n : Node). n.name)

abbrev pub role_node : Name → Node
role_node name = record { name = name; type = "role" }

abbrev pub docker_node : Name → Node
docker_node name = record { name = name; type = "docker_playbook" }

abbrev pub is_docker : Node → Bool
is_docker n = n.type == "docker_playbook"

-- `for role in common_roles: coverage[role] = True`
abbrev pub cover : List Name → Dict Name Bool → Dict Name Bool
cover [] coverage = coverage
cover (role ∷ rest) coverage = cover rest (put role true coverage)

-- `dict.fromkeys(roles, False)`
abbrev pub from_keys : List Name → Dict Name Bool → Dict Name Bool
from_keys [] coverage = coverage
from_keys (role ∷ rest) coverage = from_keys rest (put role false coverage)

abbrev pub is_nonempty : List Name → Bool
is_nonempty [] = false
is_nonempty (x ∷ xs) = true

abbrev pub is_uncovered : Option Bool → Bool
is_uncovered none = false
is_uncovered (some covered) = not covered

abbrev pub keys : Dict Name Bool → List Name
keys = map (λ (entry : Name × Bool). entry.0)

-- The roles that `get_docker_plays` warns of.
unfoldable pub uncovered_roles : Dict Name Bool → List Name
uncovered_roles coverage = select (λ role. is_uncovered (lookup role coverage)) (keys coverage)

module _ (nx : Networkx) where
  open nx use {Graph, nodes, descendants, all_neighbors}

  abbrev pub add_descendants : Name → List Name → Option (List Node) → Result (List Name)
  add_descendants role items none = raised networkx_error
  add_descendants role items (some dependents) =
      ok (update (insert role items) (node_names dependents))

  unfoldable pub add_dependents : Graph → Name → List Name → Result (List Name)
  add_dependents g role items = add_descendants role items (descendants g (role_node role))

  unfoldable pub get_dependencies : List Name → Graph → Result (List Name)
  unfolding add_dependents
  get_dependencies roles g = for_each (add_dependents g) roles []

  -- `roles & docker_roles`
  unfoldable pub common_roles : Graph → List Name → Name → List Name
  common_roles g roles play =
      select (contains (update [] (node_names (all_neighbors g (docker_node play))))) roles

  -- The loop over the Docker plays: the plays to build and the coverage of the roles.
  unfoldable pub cover_plays :
      Graph → List Name → List Name → List Name → Dict Name Bool → List Name × Dict Name Bool
  cover_plays g roles [] items coverage = (items, coverage)
  cover_plays g roles (play ∷ rest) items coverage =
      let common = common_roles g roles play in
      cover_plays g roles rest (if is_nonempty common then insert play items else items)
        (cover common coverage)

  abbrev pub docker_plays : Graph → List Name
  docker_plays g = update [] (node_names (select is_docker (nodes g)))

  -- The plays that share a role with `roles`, and the roles that no play covers.
  unfoldable pub get_docker_plays : List Name → Graph → List Name × List Name
  unfolding cover_plays uncovered_roles
  get_docker_plays roles g =
      let (items, coverage) = cover_plays g roles (docker_plays g) [] (from_keys roles []) in
      (items, uncovered_roles coverage)

-- `pathlib2.Path(DOCKER_PATH_ROOT, play, "Dockerfile")` takes texts only.
unfoldable pub filter_docker_play : (String → Bool) → Name → List Name → Result (List Name)
filter_docker_play has_dockerfile (called play) items =
    ok (if has_dockerfile play then insert (called play) items else items)
filter_docker_play has_dockerfile _ items = raised type_error

unfoldable pub filter_docker_plays : (String → Bool) → List Name → Result (List Name)
unfolding filter_docker_play
filter_docker_plays has_dockerfile plays = for_each (filter_docker_play has_dockerfile) plays []
