-- ===== src/Dependencies/Graph.antt =====
-- The graph of util/parsefiles.py. networkx is not part of the repository: its `DiGraph` and the
-- functions that the analysis calls are a parameter, with what their documentation says of them.
use configuration.Base.{
  ◌≡◌, ◌≢◌, ◌↔◌, Bool, true, false, ◌&&◌, ◌||◌, Option, none, some, List, [], String, arith, Eq,
  ◌==◌, string_eq, eq_iff, contains,
}
use configuration.Dependencies.Yaml.{Name, name_eq}

-- `namedtuple('Node', ['name', 'type'])`
pub record Node : Type 0 where
  pub name : Name
  pub type : String

abbrev pub node_beq : Node → Node → Bool
node_beq a b = a.name == b.name && a.type == b.type

pub node_beq_iff : (a b : Node) → (node_beq a b ≡ true) ↔ (a ≡ b)
node_beq_iff a b = ground (arith, name_eq.beq_iff a.name b.name, eq_iff a.type b.type)

instance abbrev pub node_eq : Eq Node
node_eq = record { beq = node_beq; beq_iff = node_beq_iff }

-- A path along the edges of a graph, from its first node to its last.
pub data Reaches {A : Type 0} (edge : A → A → Bool) : A → A → Type 0 where
  here : {a : A} → Reaches edge a a
  step : {a b c : A} → edge a b ≡ true → Reaches edge b c → Reaches edge a c

pub record Networkx : Type 1 where
  pub Graph : Type 0
  -- `nx.DiGraph()`, `graph.add_edge(a, b)` and `graph.nodes()`
  pub empty : Graph
  pub add_edge : Node → Node → Graph → Graph
  pub nodes : Graph → List Node
  pub has_edge : Graph → Node → Node → Bool
  -- `nx.descendants(graph, a)`; `none` is the error that the node is not in the graph
  pub descendants : Graph → Node → Option (List Node)
  -- `nx.all_neighbors(graph, a)`: predecessors and successors
  pub all_neighbors : Graph → Node → List Node
  pub has_edge-empty : (a b : Node) → has_edge empty a b ≡ false
  pub has_edge-add_edge :
      (a b c d : Node) (g : Graph)
      → has_edge (add_edge a b g) c d ≡ ((a == c && b == d) || has_edge g c d)
  pub nodes-empty : nodes empty ≡ []
  pub nodes-add_edge :
      (a b c : Node) (g : Graph)
      → contains (nodes (add_edge a b g)) c ≡ (a == c || (b == c || contains (nodes g) c))
  pub descendants-absent :
      (g : Graph) (a : Node) → contains (nodes g) a ≡ false → descendants g a ≡ none
  pub descendants-present :
      (g : Graph) (a : Node) → contains (nodes g) a ≡ true → descendants g a ≢ none
  pub descendants_sound :
      (g : Graph) (a b : Node) (found : List Node)
      → descendants g a ≡ some found
      → contains found b ≡ true
      → (a ≢ b) × Reaches (has_edge g) a b
  pub descendants_complete :
      (g : Graph) (a b : Node) (found : List Node)
      → descendants g a ≡ some found
      → a ≢ b
      → Reaches (has_edge g) a b
      → contains found b ≡ true
  pub all_neighbors_iff :
      (g : Graph) (a b : Node)
      → contains (nodes g) a ≡ true
      → contains (all_neighbors g a) b ≡ (has_edge g b a || has_edge g a b)
