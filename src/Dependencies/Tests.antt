-- ===== src/Dependencies/Tests.antt =====
-- Runs of the dependency analysis on a small repository, and its theorems at that repository.
mod EdgeGraph
use EdgeGraph.{edge_graph}
use configuration.Base.{
  ◌≡◌, refl, ◌↔◌, Bool, true, false, ◌||◌, List, [], ◌∷◌, ◌++◌, map, String, arith, ◌==◌, string_eq,
  list_eq, Result, ok, raised, any, contains, networkx_error, name_error, if◌then◌else◌,
}
use configuration.Dependencies.Yaml.{
  Yaml, null, string, sequence, mapping, nil, cons, end, field, Loaded, loaded, Name, called,
  name_eq,
}
use configuration.Dependencies.Graph.{Node, node_eq, Networkx}
use configuration.Dependencies.Build.{RoleItem, PlayItem, build_graph}
use configuration.Dependencies.Build.Edges.{role_declares, play_declares, has_edge-build_graph}
use configuration.Dependencies.Plays.{
  role_node, docker_node, get_dependencies, get_docker_plays, common_roles, filter_docker_plays,
}
use configuration.Dependencies.Plays.Reach.{
  DependsOn, get_dependencies_iff, get_dependencies_total, get_dependencies_raised,
}
use configuration.Dependencies.Plays.Cover.{Covers, get_docker_plays_iff}
use configuration.Dependencies.Changes.{
  FilePath, get_role_name_from_file, change_set_to_roles, get_plays,
}
use configuration.Dependencies.Changes.Files.{
  get_role_name_from_file_lem, changes_role, changes_play, contains-change_set_to_roles,
  get_plays_lem,
}
use configuration.Dependencies.Main.{Repository, repository_graph, plays_to_build}
use configuration.Dependencies.Main.Affected.{Affects, plays_to_build_iff, plays_to_build_raised}

-- The role app depends on common, and the Docker play web uses app.
abbrev roles_of : FilePath → List RoleItem
roles_of dir =
    record {
      name = "app";
      metas =
          loaded (mapping (field "dependencies" (sequence (cons (string "common") nil)) end)) ∷ [];
    }
    ∷ record { name = "common"; metas = loaded null ∷ [] }
    ∷ []

abbrev play_of : Yaml
play_of = sequence (
    cons
      (mapping (
        field "roles"
          (sequence (cons (mapping (field "role" (string "app") (field "x" null end))) nil)) end))
      nil)

abbrev plays_of : FilePath → List PlayItem
plays_of dir =
    if dir == "repo" ∷ "docker" ∷ []
    then record { file = "web.yml"; content = loaded play_of }
      ∷ record { file = "README"; content = loaded null }
      ∷ []
    else []

abbrev changed_role : FilePath
changed_role = "roles" ∷ "common" ∷ "tasks" ∷ []

abbrev changed_play : FilePath
changed_play = "plays" ∷ "site.yml" ∷ []

abbrev paths : List FilePath
paths = ("repo" ∷ "roles" ∷ "common" ∷ "tasks" ∷ []) ∷ ("repo" ∷ "plays" ∷ "site.yml" ∷ []) ∷ []

abbrev small : Repository
small = record {
  git_dir = "repo" ∷ [];
  tree = paths;
  role_items = roles_of;
  play_items = plays_of;
  has_dockerfile = λ play. play == "web";
  roles_paths = ("roles" ∷ []) ∷ [];
  aws_plays_paths = ("plays" ∷ []) ∷ [];
  docker_plays_paths = ("docker" ∷ []) ∷ [];
}

abbrev app : Node
app = role_node (called "app")

abbrev common : Node
common = role_node (called "common")

abbrev web : Node
web = docker_node (called "web")

abbrev graph : List (Node × Node)
graph = (app, web) ∷ (common, app) ∷ []

program : Unit {0}
unfolding plays_to_build repository_graph build_graph get_plays change_set_to_roles get_dependencies
    get_docker_plays filter_docker_plays common_roles get_role_name_from_file
program = tt

run_graph : repository_graph edge_graph small ≡ ok graph
unfolding program
run_graph = refl

run_plays : plays_to_build edge_graph small (changed_role ∷ []) ≡ ok (called "web" ∷ [])
unfolding program
run_plays = refl

-- An AWS play that has the name of the role app and uses common, on which app does not depend.
abbrev homonym : List (Node × Node)
homonym = (common, record { name = called "app"; type = "aws_playbook" }) ∷ (app, web) ∷ []

-- The Docker play web is found for a change of common, although it does not use it.
run_homonym :
    (get_docker_plays edge_graph (called "app" ∷ called "common" ∷ []) homonym).0
    ≡ called "web" ∷ []
unfolding program
run_homonym = refl

run_homonym_dependencies :
    get_dependencies edge_graph (called "common" ∷ []) homonym
    ≡ ok (called "app" ∷ called "common" ∷ [])
unfolding program
run_homonym_dependencies = refl

run_dependencies :
    get_dependencies edge_graph (called "common" ∷ []) graph
    ≡ ok (called "web" ∷ called "app" ∷ called "common" ∷ [])
unfolding program
run_dependencies = refl

abbrev the_roles : List (List RoleItem)
the_roles = roles_of [] ∷ []

abbrev the_plays : List (List PlayItem)
the_plays = plays_of ("repo" ∷ "docker" ∷ []) ∷ []

run_build : build_graph edge_graph the_roles ([] ∷ []) the_plays ≡ ok graph
unfolding program
run_build = refl

has_edge-build_graph_example : edge_graph.has_edge graph common app ≡ (
    any (any (role_declares common app)) the_roles
    || (any (any (play_declares "aws_playbook" common app)) ([] ∷ [])
        || any (any (play_declares "docker_playbook" common app)) the_plays))
has_edge-build_graph_example =
    has_edge-build_graph edge_graph common app the_roles ([] ∷ []) the_plays graph run_build

get_dependencies_iff_example :
    (contains (called "web" ∷ called "app" ∷ called "common" ∷ []) (called "app") ≡ true)
    ↔ DependsOn edge_graph graph (called "common" ∷ []) (called "app")
get_dependencies_iff_example =
    get_dependencies_iff edge_graph graph (called "common" ∷ [])
      (called "web" ∷ called "app" ∷ called "common" ∷ []) (called "app") run_dependencies

common_present :
    (role : Name)
    → contains (called "common" ∷ []) role ≡ true
    → contains (edge_graph.nodes graph) (role_node role) ≡ true
common_present role h =
    let same = (name_eq.beq_iff (called "common") role).0 (ground arith) in rw (← same)

get_dependencies_total_example :
    (items : List Name) × (get_dependencies edge_graph (called "common" ∷ []) graph ≡ ok items)
get_dependencies_total_example =
    get_dependencies_total edge_graph graph (called "common" ∷ []) common_present

get_docker_plays_iff_example :
    ((contains (get_docker_plays edge_graph (called "app" ∷ []) graph).0 (called "web") ≡ true) ↔ (
      (r : Name) × (contains (called "app" ∷ []) r ≡ true)
      × Covers edge_graph graph (called "web") r))
    × ((contains (get_docker_plays edge_graph (called "app" ∷ []) graph).1 (called "app") ≡ true)
        ↔ ((contains (called "app" ∷ []) (called "app") ≡ true)
            × ¬ ((p : Name) × Covers edge_graph graph p (called "app"))))
get_docker_plays_iff_example =
    get_docker_plays_iff edge_graph graph (called "app" ∷ []) (called "web") (called "app")

run_changes :
    change_set_to_roles paths ("repo" ∷ []) (changed_role ∷ []) (("roles" ∷ []) ∷ [])
    ≡ ok ("common" ∷ [])
unfolding program
run_changes = refl

contains-change_set_to_roles_example :
    contains {A = String} ("common" ∷ []) "common"
    ≡ any
        (λ d. any (changes_role paths ("repo" ∷ []) "common" d) (changed_role ∷ []))
        (("roles" ∷ []) ∷ [])
contains-change_set_to_roles_example =
    contains-change_set_to_roles paths ("repo" ∷ []) (changed_role ∷ []) (("roles" ∷ []) ∷ [])
      ("common" ∷ []) "common" run_changes

site_changed :
    any (λ d. any (changes_play paths ("repo" ∷ []) d) (changed_play ∷ [])) (("plays" ∷ []) ∷ [])
    ≡ true
unfolding program
site_changed = refl

plays_to_build_iff_example : (contains (called "web" ∷ []) (called "web") ≡ true) ↔ (
    (small.has_dockerfile "web" ≡ true)
    × Affects edge_graph small graph (changed_role ∷ []) (called "web"))
plays_to_build_iff_example =
    plays_to_build_iff edge_graph small (changed_role ∷ []) graph (called "web" ∷ []) "web"
      run_graph run_plays
