-- ===== src/Dependencies/Plays/Reach.antt =====
-- `get_dependencies` against the paths of the graph.
use mathlib.Core.Path.{subst}
use configuration.Base.{
  ◌≡◌, ◌≢◌, ◌↔◌, inl, inr, Bool, true, false, ◌||◌, Option, none, some, List, [], arith, ◌==◌,
  string_eq, ok, raised, networkx_error, for_each_adds, for_each_ok, for_each_raised,
  for_each_total, update, ◌⊎◌, any_sound, any_complete, contains, insert, contains-insert,
  contains-update, contains-map_sound, contains-map_complete, Option-cases, Bool-cases,
}
use configuration.Dependencies.Yaml.{Name, name_eq}
use configuration.Dependencies.Graph.{Node, node_eq, Networkx, Reaches, here}
use configuration.Dependencies.Plays.{node_names, role_node, add_dependents, get_dependencies}

-- A name is that of a node that a path joins to one of the roles: what depends on the role, on
-- something that depends on it, and so on, or the role itself.
pub record DependsOn (nx : Networkx) (g : nx.Graph) (roles : List Name) (name : Name) : Type 0 where
  pub role : Name
  pub is_role : contains roles role ≡ true
  pub node : Node
  pub path : Reaches (nx.has_edge g) (role_node role) node
  pub is_named : node.name ≡ name

abbrev is_dependent : Name → Name → Option (List Node) → Bool
is_dependent role name none = false
is_dependent role name (some dependents) = role == name || contains (node_names dependents) name

module _ (nx : Networkx) (g : nx.Graph) where
  see-add_dependents :
      (name role : Name) (items items' : List Name)
      → add_dependents nx g role items ≡ ok items'
      → contains items' name
        ≡ (is_dependent role name (nx.descendants g (role_node role)) || contains items name)
  unfolding add_dependents
  see-add_dependents name role items items' h =
      elim (Option-cases (nx.descendants g (role_node role))) [
        | inl absent ↦ absurd (ground arith)
        | inr (ds, e) ↦ rw e (
            ground (
              arith,
              contains-update (node_names ds) (insert role items) name,
              contains-insert role name items,
            ))
      ]

  is_dependent_sound :
      (role name : Name)
      → is_dependent role name (nx.descendants g (role_node role)) ≡ true
      → (node : Node) × Reaches (nx.has_edge g) (role_node role) node × (node.name ≡ name)
  is_dependent_sound role name h = elim (Option-cases (nx.descendants g (role_node role))) [
    | inl absent ↦ absurd (ground arith)
    | inr (ds, e) ↦ elim (Bool-cases (role == name)) [
      | inl same ↦ (role_node role, here, (name_eq.beq_iff role name).0 same)
      | inr other ↦
          let (node, m, named) = contains-map_sound (λ (n : Node). n.name) ds name (ground arith) in
          (node, (nx.descendants_sound g (role_node role) node ds e m).1, named)
    ]
  ]

  is_dependent_complete :
      (role : Name) (node : Node) (ds : List Node)
      → nx.descendants g (role_node role) ≡ some ds
      → Reaches (nx.has_edge g) (role_node role) node
      → is_dependent role node.name (some ds) ≡ true
  is_dependent_complete role node ds e path = elim (Bool-cases (role_node role == node)) [
    | inl same ↦
        ground (arith, name_eq.beq_iff role node.name, node_eq.beq_iff (role_node role) node)
    | inr other ↦
        let differ : role_node role ≢ node =
          λ p. ground (arith, node_eq.beq_iff (role_node role) node) in
        let found = nx.descendants_complete g (role_node role) node ds e differ path in
        ground (arith, contains-map_complete (λ (n : Node). n.name) ds node found)
  ]

  adds_role :
      (role : Name) (node : Node) (ds : List Node) (name : Name)
      → nx.descendants g (role_node role) ≡ some ds
      → Reaches (nx.has_edge g) (role_node role) node
      → node.name ≡ name
      → is_dependent role name (nx.descendants g (role_node role)) ≡ true
  adds_role role node ds name e path named =
      subst (λ n. is_dependent role n (nx.descendants g (role_node role)) ≡ true) named
        (rw e (is_dependent_complete role node ds e path))

  round_descendants :
      (role : Name) (t t' : List Name)
      → add_dependents nx g role t ≡ ok t'
      → (ds : List Node) × (nx.descendants g (role_node role) ≡ some ds)
  unfolding add_dependents
  round_descendants role t t' round = elim (Option-cases (nx.descendants g (role_node role))) [
    | inl absent ↦ absurd (ground arith)
    | inr found ↦ found
  ]

  add_dependents_cases :
      (role : Name) (t : List Name)
      → ((t' : List Name) × (add_dependents nx g role t ≡ ok t'))
        ⊎ (add_dependents nx g role t ≡ raised networkx_error)
  unfolding add_dependents
  add_dependents_cases role t = elim (Option-cases (nx.descendants g (role_node role))) [
    | inl absent ↦ inr (rw absent)
    | inr (ds, e) ↦ inl (update (insert role t) (node_names ds), rw e)
  ]

  present_returns :
      (role : Name) (t : List Name)
      → contains (nx.nodes g) (role_node role) ≡ true
      → (t' : List Name) × (add_dependents nx g role t ≡ ok t')
  unfolding add_dependents
  present_returns role t present = elim (Option-cases (nx.descendants g (role_node role))) [
    | inl absent ↦ absurd (nx.descendants-present g (role_node role) present absent)
    | inr (ds, e) ↦ (update (insert role t) (node_names ds), rw e)
  ]

  absent_raises :
      (role : Name) (t : List Name)
      → contains (nx.nodes g) (role_node role) ≡ false
      → add_dependents nx g role t ≡ raised networkx_error
  unfolding add_dependents
  absent_raises role t absent = rw (nx.descendants-absent g (role_node role) absent)

  -- If every role is a node of the graph, `get_dependencies` returns.
  pub get_dependencies_total :
      (roles : List Name)
      → ((role : Name) → contains roles role ≡ true → contains (nx.nodes g) (role_node role) ≡ true)
      → (items : List Name) × (get_dependencies nx roles g ≡ ok items)
  unfolding get_dependencies
  get_dependencies_total roles all =
      for_each_total (add_dependents nx g) roles []
        (λ role t m. present_returns role t (all role m))

  -- A role that is no node of the graph makes `get_dependencies` raise networkx's error.
  pub get_dependencies_raised :
      (roles : List Name) (role : Name)
      → contains roles role ≡ true
      → contains (nx.nodes g) (role_node role) ≡ false
      → get_dependencies nx roles g ≡ raised networkx_error
  unfolding get_dependencies
  get_dependencies_raised roles role m absent =
      for_each_raised (add_dependents nx g) networkx_error roles role [] add_dependents_cases
        (λ t. absent_raises role t absent) m

  -- What `get_dependencies` returns holds exactly the names of the nodes that a path joins to one of
  -- the roles: the roles themselves and all that depends on them, directly or not.
  pub get_dependencies_iff :
      (roles items : List Name) (name : Name)
      → get_dependencies nx roles g ≡ ok items
      → (contains items name ≡ true) ↔ DependsOn nx g roles name
  unfolding get_dependencies
  get_dependencies_iff roles items name h =
      let adds = λ (role : Name). is_dependent role name (nx.descendants g (role_node role)) in
      let seen =
        for_each_adds (λ (xs : List Name). contains xs name) adds (add_dependents nx g)
          (see-add_dependents name) roles [] items h in
      (
        λ m.
            let (role, is_role, dep) = any_sound adds roles (ground arith) in
            let (node, path, named) = is_dependent_sound role name dep in
            record { role = role; is_role = is_role; node = node; path = path; is_named = named },
        λ d.
            let (t, t', round) =
              for_each_ok (add_dependents nx g) roles d.role [] items h d.is_role in
            let (ds, e) = round_descendants d.role t t' round in
            let dep : adds d.role ≡ true = adds_role d.role d.node ds name e d.path d.is_named in
            ground (arith, any_complete adds roles d.role d.is_role dep),
      )
