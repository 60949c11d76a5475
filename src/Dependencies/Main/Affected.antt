-- ===== src/Dependencies/Main/Affected.antt =====
-- The Docker plays that the main of util/parsefiles.py prints.
use configuration.Base.{
  ◌≡◌, refl, sym, ◌∙◌, ◌↔◌, Bool, true, false, ◌&&◌, ◌||◌, List, [], ◌∷◌, map, String, arith, ◌==◌,
  string_eq, eq_iff, ok, raised, name_error, for_each_adds, >>=-eq-ok, any, contains,
  contains-insert, contains-map_sound, contains-map_complete,
}
use configuration.Dependencies.Yaml.{Name, no_name, called, valued, name_eq}
use configuration.Dependencies.Graph.{Networkx}
use configuration.Dependencies.Changes.{FilePath, get_plays, change_set_to_roles}
use configuration.Dependencies.Changes.Files.{
  changes_role, changes_play, get_plays_lem, contains-change_set_to_roles,
}
use configuration.Dependencies.Plays.{
  filter_docker_play, filter_docker_plays, get_dependencies, get_docker_plays,
}
use configuration.Dependencies.Plays.Reach.{DependsOn, get_dependencies_iff}
use configuration.Dependencies.Plays.Cover.{Covers, get_docker_plays_iff}
use configuration.Dependencies.Main.{Repository, repository_graph, plays_to_build}

module _ (has_dockerfile : String → Bool) where
  see-filter_docker_play :
      (play : String) (p : Name) (items items' : List Name)
      → filter_docker_play has_dockerfile p items ≡ ok items'
      → contains items' (called play)
        ≡ ((p == called play && has_dockerfile play) || contains items (called play))
  unfolding filter_docker_play
  see-filter_docker_play play (called s) items items' h =
      ground (arith, contains-insert (called s) (called play) items, eq_iff s play)
  see-filter_docker_play play no_name items items' h = cc
  see-filter_docker_play play (valued s) items items' h = cc

  -- Of the plays those are kept that have a Dockerfile.
  contains-filter_docker_plays :
      (play : String) (plays out : List Name)
      → filter_docker_plays has_dockerfile plays ≡ ok out
      → contains out (called play) ≡ (contains plays (called play) && has_dockerfile play)
  unfolding filter_docker_plays
  contains-filter_docker_plays play plays out h =
      for_each_adds (λ (xs : List Name). contains xs (called play))
        (λ p. p == called play && has_dockerfile play) (filter_docker_play has_dockerfile)
        (see-filter_docker_play play) plays [] out h
      ∙ any-and play plays
    where
      any-and :
          (play : String) (plays : List Name)
          → (any (λ p. p == called play && has_dockerfile play) plays || false)
            ≡ (contains plays (called play) && has_dockerfile play)
      any-and play [] = refl
      any-and play (p ∷ plays) = ground (arith, any-and play plays)

module _ (nx : Networkx) (repo : Repository) where
  open repo use {git_dir, tree, has_dockerfile, roles_paths, aws_plays_paths}

  -- A role that a file of the change set names, the name of a node that a path joins to this role, and
  -- a Docker play that an edge joins to a role of this name. Only the name goes on from the path to the
  -- edge: an AWS play on the path counts as the role that is named as it is.
  pub record Affects (graph : nx.Graph) (change_set : List FilePath) (play : Name) : Type 0 where
    pub role : String
    pub is_changed : any (λ d. any (changes_role tree git_dir role d) change_set) roles_paths ≡ true
    pub dependent : Name
    pub depends : DependsOn nx graph (called role ∷ []) dependent
    pub covers : Covers nx graph play dependent

  -- `plays_to_build` raises a `NameError` if the change set has an AWS playbook and the graph is built.
  pub plays_to_build_raised :
      (change_set : List FilePath) (graph : nx.Graph)
      → repository_graph nx repo ≡ ok graph
      → any (λ d. any (changes_play tree git_dir d) change_set) aws_plays_paths ≡ true
      → plays_to_build nx repo change_set ≡ raised name_error
  unfolding plays_to_build
  plays_to_build_raised change_set graph built playbook =
      ground (arith, built, playbook, get_plays_lem tree git_dir change_set aws_plays_paths)

  -- The stages behind a list of plays.
  record Stages (change_set : List FilePath) (graph : nx.Graph) (out : List Name) : Type 0 where
    roles : List String
    dependents : List Name
    changed : change_set_to_roles tree git_dir change_set roles_paths ≡ ok roles
    depend : get_dependencies nx (map called roles) graph ≡ ok dependents
    kept : filter_docker_plays has_dockerfile (get_docker_plays nx dependents graph).0 ≡ ok out

  no_plays :
      (change_set : List FilePath) (plays : List String)
      → get_plays tree git_dir change_set aws_plays_paths ≡ ok plays
      → plays ≡ []
  no_plays change_set plays p =
      ground (arith, get_plays_lem tree git_dir change_set aws_plays_paths)

  stages :
      (change_set : List FilePath) (graph : nx.Graph) (out : List Name)
      → repository_graph nx repo ≡ ok graph
      → plays_to_build nx repo change_set ≡ ok out
      → Stages change_set graph out
  unfolding plays_to_build
  stages change_set graph out built h =
      let (plays, p, rest) =
        >>=-eq-ok (get_plays tree git_dir change_set aws_plays_paths) _ (rw built at h) in
      let (roles, r, rest') =
        >>=-eq-ok (change_set_to_roles tree git_dir change_set roles_paths) _
          (rw (no_plays change_set plays p) at rest) in
      let (dependents, d, last) =
        >>=-eq-ok (get_dependencies nx (map called roles) graph) _ rest' in
      record { roles = roles; dependents = dependents; changed = r; depend = d; kept = last }

  Affects-sound :
      (change_set : List FilePath) (graph : nx.Graph) (out : List Name) (play : Name)
      → (s : Stages change_set graph out)
      → contains (get_docker_plays nx s.dependents graph).0 play ≡ true
      → Affects graph change_set play
  Affects-sound change_set graph out play s m =
      let (n, is_dependent, covers) =
        (get_docker_plays_iff nx graph s.dependents play play).0.0 m in
      let d =
        (get_dependencies_iff nx graph (map called s.roles) s.dependents n s.depend).0
          is_dependent in
      let (r, is_role, named) = contains-map_sound called s.roles d.role d.is_role in
      record {
        role = r;
        is_changed =
            sym
              (contains-change_set_to_roles tree git_dir change_set roles_paths s.roles r s.changed)
            ∙ is_role;
        dependent = n;
        depends = record {
          role = d.role;
          is_role = rw named (ground (arith, name_eq.beq_iff d.role d.role));
          node = d.node;
          path = d.path;
          is_named = d.is_named;
        };
        covers = covers;
      }

  Affects-complete :
      (change_set : List FilePath) (graph : nx.Graph) (out : List Name) (play : Name)
      → (s : Stages change_set graph out) → Affects graph change_set play
      → contains (get_docker_plays nx s.dependents graph).0 play ≡ true
  Affects-complete change_set graph out play s a =
      let is_role : contains s.roles a.role ≡ true =
        contains-change_set_to_roles tree git_dir change_set roles_paths s.roles a.role s.changed
        ∙ a.is_changed in
      let d = a.depends in
      let mapped : contains (map called s.roles) d.role ≡ true = ground (
        arith,
        d.is_role,
        name_eq.beq_iff (called a.role) d.role,
        contains-map_complete called s.roles a.role is_role,
      ) in
      let dependent =
        (get_dependencies_iff nx graph (map called s.roles) s.dependents a.dependent s.depend).1
          (record {
            role = d.role;
            is_role = mapped;
            node = d.node;
            path = d.path;
            is_named = d.is_named;
          }) in
      (get_docker_plays_iff nx graph s.dependents play play).0.1 (a.dependent, dependent, a.covers)

  -- What the script prints, where the graph is built and it ends without an error: a Docker play
  -- exactly when it has a Dockerfile and an edge joins it to a role with the name of a node that a
  -- path joins to a changed role, be that node a role or a play.
  pub plays_to_build_iff :
      (change_set : List FilePath) (graph : nx.Graph) (out : List Name) (play : String)
      → repository_graph nx repo ≡ ok graph
      → plays_to_build nx repo change_set ≡ ok out
      → (contains out (called play) ≡ true)
        ↔ ((has_dockerfile play ≡ true) × Affects graph change_set (called play))
  plays_to_build_iff change_set graph out play built h =
      let s = stages change_set graph out built h in
      let plays = (get_docker_plays nx s.dependents graph).0 in
      let kept = contains-filter_docker_plays has_dockerfile play plays out s.kept in
      (
        λ m. (
          ground (arith, kept, m),
          Affects-sound change_set graph out (called play) s (ground (arith, kept, m)),
        ),
        λ (docker, a).
            ground (arith, kept, docker, Affects-complete change_set graph out (called play) s a),
      )
