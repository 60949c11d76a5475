-- ===== src/Dependencies/Plays/Cover.antt =====
-- `get_docker_plays` against the edges of the graph.
use mathlib.Core.Path.{subst}
use configuration.Base.{
  Bool-ext, ◌≡◌, refl, sym, ◌∙◌, ◌↔◌, inl, inr, Bool, true, false, ◌&&◌, ◌||◌, some, List, [], ◌∷◌,
  arith, string_eq, any, any_sound, any_complete, contains, insert, update, select, contains-insert,
  contains-select, if◌then◌else◌, contains-update, contains-map_sound, contains-map_complete,
  Option-cases, Bool-cases, beq_refl, Dict, lookup, put, lookup-put, eq_iff,
}
use configuration.Dependencies.Yaml.{Name, name_eq}
use configuration.Dependencies.Graph.{Node, node_eq, Networkx}
use configuration.Dependencies.Plays.{
  node_names, docker_node, cover, from_keys, is_nonempty, is_uncovered, keys, uncovered_roles,
  common_roles, cover_plays, docker_plays, is_docker, get_docker_plays,
}

-- Coverage, as a dictionary.
lookup-cover :
    (role : Name) (common : List Name) (coverage : Dict Name Bool)
    → lookup role (cover common coverage)
      ≡ (if contains common role then some true else lookup role coverage)
lookup-cover role [] coverage = refl
lookup-cover role (r ∷ rest) coverage =
    ground (arith, lookup-cover role rest (put r true coverage), lookup-put r role true coverage)

lookup-from_keys :
    (role : Name) (roles : List Name) (coverage : Dict Name Bool)
    → lookup role (from_keys roles coverage)
      ≡ (if contains roles role then some false else lookup role coverage)
lookup-from_keys role [] coverage = refl
lookup-from_keys role (r ∷ rest) coverage =
    ground
      (arith, lookup-from_keys role rest (put r false coverage), lookup-put r role false coverage)

contains-keys_of_lookup :
    (role : Name) (b : Bool) (coverage : Dict Name Bool)
    → lookup role coverage ≡ some b
    → contains (keys coverage) role ≡ true
contains-keys_of_lookup role b [] h = cc
contains-keys_of_lookup role b ((r, c) ∷ rest) h =
    ground (arith, contains-keys_of_lookup role b rest, name_eq.beq_iff r role)

contains-uncovered_roles :
    (role : Name) (coverage : Dict Name Bool)
    → contains (uncovered_roles coverage) role ≡ is_uncovered (lookup role coverage)
unfolding uncovered_roles
contains-uncovered_roles role coverage = elim (Option-cases (lookup role coverage)) [
  | inl absent ↦
      ground (arith, contains-select (λ r. is_uncovered (lookup r coverage)) (keys coverage) role)
  | inr (b, e) ↦ ground (
    arith,
    contains-select (λ r. is_uncovered (lookup r coverage)) (keys coverage) role,
    contains-keys_of_lookup role b coverage e,
  )
]

contains_of_nonempty :
    (xs : List Name) → is_nonempty xs ≡ true → (x : Name) × (contains xs x ≡ true)
contains_of_nonempty [] h = cc
contains_of_nonempty (x ∷ xs) h = (x, rw beq_refl)

nonempty_of_contains : (xs : List Name) (x : Name) → contains xs x ≡ true → is_nonempty xs ≡ true
nonempty_of_contains [] x h = cc
nonempty_of_contains (y ∷ xs) x h = refl

-- A Docker play and a role that an edge joins.
pub record Covers (nx : Networkx) (g : nx.Graph) (play role : Name) : Type 0 where
  pub is_play : contains (nx.nodes g) (docker_node play) ≡ true
  pub node : Node
  pub edge : (nx.has_edge g node (docker_node play) || nx.has_edge g (docker_node play) node) ≡ true
  pub is_named : node.name ≡ role

module _ (nx : Networkx) (g : nx.Graph) (roles : List Name) where
  contains-cover_plays :
      (play : Name) (plays items : List Name) (coverage : Dict Name Bool)
      → contains (cover_plays nx g roles plays items coverage).0 play ≡ (
          contains items play
          || (contains plays play && is_nonempty (common_roles nx g roles play)))
  unfolding cover_plays
  contains-cover_plays play [] items coverage = ground arith
  contains-cover_plays play (p ∷ plays) items coverage =
      let common = common_roles nx g roles p in
      ground (
        arith,
        contains-cover_plays play plays (if is_nonempty common then insert p items else items)
            (cover common coverage),
        contains-insert p play items,
        name_eq.beq_iff p play,
      )

  lookup-cover_plays :
      (role : Name) (plays items : List Name) (coverage : Dict Name Bool)
      → lookup role (cover_plays nx g roles plays items coverage).1 ≡ (
          if any (λ p. contains (common_roles nx g roles p) role) plays
          then some true
          else lookup role coverage)
  unfolding cover_plays
  lookup-cover_plays role [] items coverage = refl
  lookup-cover_plays role (p ∷ plays) items coverage =
      let common = common_roles nx g roles p in
      ground (
        arith,
        lookup-cover_plays role plays (if is_nonempty common then insert p items else items)
            (cover common coverage),
        lookup-cover role common coverage,
      )

  docker_sound :
      (play : Name) (node : Node)
      → contains (select is_docker (nx.nodes g)) node ≡ true
      → node.name ≡ play
      → contains (nx.nodes g) (docker_node play) ≡ true
  docker_sound play node m named =
      ground
        (arith, contains-select is_docker (nx.nodes g) node, eq_iff node.type "docker_playbook")

  docker_complete :
      (play : Name)
      → contains (nx.nodes g) (docker_node play) ≡ true
      → contains (docker_plays nx g) play ≡ true
  docker_complete play h =
      let docker = select is_docker (nx.nodes g) in
      let kept : contains docker (docker_node play) ≡ true =
        rw (contains-select is_docker (nx.nodes g) (docker_node play), h) in
      ground (
        arith,
        contains-map_complete (λ (n : Node). n.name) docker (docker_node play) kept,
        contains-update (node_names docker) [] play,
      )

  contains-docker_plays :
      (play : Name) → contains (docker_plays nx g) play ≡ contains (nx.nodes g) (docker_node play)
  contains-docker_plays play =
      let docker = select is_docker (nx.nodes g) in
      Bool-ext (contains (docker_plays nx g) play) (contains (nx.nodes g) (docker_node play))
        (λ h.
          let (node, m, named) =
            contains-map_sound (λ (n : Node). n.name) docker play
              (ground (arith, contains-update (node_names docker) [] play)) in
          docker_sound play node m named)
        (λ h. docker_complete play h)

  common_sound :
      (play role : Name)
      → contains (nx.nodes g) (docker_node play) ≡ true
      → contains (common_roles nx g roles play) role ≡ true
      → (contains roles role ≡ true) × Covers nx g play role
  unfolding common_roles
  common_sound play role is_play m =
      let neighbors = nx.all_neighbors g (docker_node play) in
      let known = contains-select (contains (update [] (node_names neighbors))) roles role in
      let (node, near, named) =
        contains-map_sound (λ (n : Node). n.name) neighbors role
          (ground (arith, known, contains-update (node_names neighbors) [] role)) in
      (
        ground (arith, known),
        record {
          is_play = is_play;
          node = node;
          edge = sym (nx.all_neighbors_iff g (docker_node play) node is_play) ∙ near;
          is_named = named;
        },
      )

  common_complete :
      (play role : Name)
      → contains roles role ≡ true
      → Covers nx g play role
      → contains (common_roles nx g roles play) role ≡ true
  unfolding common_roles
  common_complete play role is_role c =
      let neighbors = nx.all_neighbors g (docker_node play) in
      let near = nx.all_neighbors_iff g (docker_node play) c.node c.is_play ∙ c.edge in
      let named : contains (node_names neighbors) role ≡ true =
        subst (λ n. contains (node_names neighbors) n ≡ true) c.is_named
          (contains-map_complete (λ (n : Node). n.name) neighbors c.node near) in
      ground (
        arith,
        contains-select (contains (update [] (node_names neighbors))) roles role,
        contains-update (node_names neighbors) [] role,
      )

  -- `get_docker_plays` returns exactly the Docker plays of the graph that an edge joins to one of
  -- the roles, and warns of exactly those of the roles that no Docker play covers.
  pub get_docker_plays_iff :
      (play role : Name)
      → ((contains (get_docker_plays nx roles g).0 play ≡ true)
          ↔ ((r : Name) × (contains roles r ≡ true) × Covers nx g play r))
        × ((contains (get_docker_plays nx roles g).1 role ≡ true)
            ↔ ((contains roles role ≡ true) × ¬ ((p : Name) × Covers nx g p role)))
  unfolding get_docker_plays
  get_docker_plays_iff play role =
      let plays = docker_plays nx g in
      let covers = λ (p : Name). contains (common_roles nx g roles p) role in
      let built = contains-cover_plays play plays [] (from_keys roles []) in
      let warned =
        contains-uncovered_roles role (cover_plays nx g roles plays [] (from_keys roles [])).1 in
      let coverage = lookup-cover_plays role plays [] (from_keys roles []) in
      let initial = lookup-from_keys role roles [] in
      (
        (
          λ h.
              let (r, m) =
                contains_of_nonempty (common_roles nx g roles play) (ground (arith, built)) in
              let (is_role, c) =
                common_sound play r (ground (arith, built, contains-docker_plays play)) m in
              (r, is_role, c),
          λ (r, is_role, c). ground (
            arith,
            built,
            c.is_play,
            contains-docker_plays play,
            nonempty_of_contains (common_roles nx g roles play) r
                (common_complete play r is_role c),
          ),
        ),
        (
          λ h. (
            ground (arith, warned, coverage, initial),
            λ (p, c).
                let is_role : contains roles role ≡ true =
                  ground (arith, warned, coverage, initial) in
                let found =
                  any_complete covers plays p (contains-docker_plays p ∙ c.is_play)
                    (common_complete p role is_role c) in
                ground (arith, warned, coverage, initial, found),
          ),
          λ (is_role, uncovered). elim (Bool-cases (any covers plays)) [
            | inl found ↦
                let (p, m, common) = any_sound covers plays found in
                absurd (
                  uncovered (p, (common_sound p role (sym (contains-docker_plays p) ∙ m) common).1))
            | inr none_found ↦ ground (arith, warned, coverage, initial, none_found)
          ],
        ),
      )
