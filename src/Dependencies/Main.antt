-- ===== src/Dependencies/Main.antt =====
-- The main of util/parsefiles.py: from a change set to the Docker plays to build.
pub mod Affected
use configuration.Base.{Bool, List, [], ◌∷◌, ◌++◌, map, String, Result, ok, ◌>>=◌, update}
use configuration.Dependencies.Yaml.{Name, called, name_eq}
use configuration.Dependencies.Graph.{Networkx}
use configuration.Dependencies.Build.{RoleItem, PlayItem, build_graph}
use configuration.Dependencies.Changes.{FilePath, change_set_to_roles, get_plays}
use configuration.Dependencies.Plays.{get_dependencies, get_docker_plays, filter_docker_plays}

-- The checkout and the paths of util/parsefiles_config.yml.
pub record Repository : Type 0 where
  pub git_dir : FilePath
  pub tree : List FilePath
  pub role_items : FilePath → List RoleItem
  pub play_items : FilePath → List PlayItem
  pub has_dockerfile : String → Bool
  pub roles_paths : List FilePath
  pub aws_plays_paths : List FilePath
  pub docker_plays_paths : List FilePath

module _ (nx : Networkx) (repo : Repository) where
  open repo use {
    git_dir, tree, role_items, play_items, has_dockerfile, roles_paths, aws_plays_paths,
    docker_plays_paths,
  }

  unfoldable pub repository_graph : Result nx.Graph
  unfolding build_graph
  repository_graph =
      build_graph nx (map (λ d. role_items (git_dir ++ d)) roles_paths)
        (map (λ d. play_items (git_dir ++ d)) aws_plays_paths)
        (map (λ d. play_items (git_dir ++ d)) docker_plays_paths)

  unfoldable pub plays_to_build : List FilePath → Result (List Name)
  plays_to_build change_set = do
    graph ← repository_graph
    plays ← get_plays tree git_dir change_set aws_plays_paths
    roles ← change_set_to_roles tree git_dir change_set roles_paths
    dependent_roles ← get_dependencies nx (map called roles) graph
    filter_docker_plays has_dockerfile
        (update (get_docker_plays nx dependent_roles graph).0 (map called plays))
