-- ===== src/Dependencies/Tests/EdgeGraph.antt =====
-- A graph as the list of its edges: what is assumed of networkx can hold.
use configuration.Base.{
  ◌≡◌, ◌≢◌, refl, ◌⊎◌, inl, inr, Bool, true, false, not, ◌&&◌, ◌||◌, Option, none, some, List, [],
  ◌∷◌, arith, ◌==◌, Eq, if◌then◌else◌, contains, select, contains-select, Bool-cases, beq_refl,
}
use configuration.Dependencies.Graph.{Node, node_eq, Networkx, Reaches, here, step}

module _ {A : Type 0} ⦃e : Eq A⦄ where
  abbrev pub has_edge : List (A × A) → A → A → Bool
  has_edge [] a b = false
  has_edge ((u, v) ∷ g) a b = (u == a && v == b) || has_edge g a b

  abbrev pub nodes : List (A × A) → List A
  nodes [] = []
  nodes ((u, v) ∷ g) = u ∷ v ∷ nodes g

  abbrev pub reach : List (A × A) → A → A → Bool
  reach [] a b = a == b
  reach ((u, v) ∷ g) a b = reach g a b || (reach g a u && reach g v b)

  abbrev pub descendants_of : List (A × A) → A → List A
  descendants_of g a = select (λ b. not (a == b) && reach g a b) (nodes g)

  abbrev pub descendants : List (A × A) → A → Option (List A)
  descendants g a = if contains (nodes g) a then some (descendants_of g a) else none

  abbrev pub all_neighbors : List (A × A) → A → List A
  all_neighbors g a = select (λ b. has_edge g b a || has_edge g a b) (nodes g)

  abbrev pub PathIn : List (A × A) → A → A → Type 0
  PathIn g = Reaches (has_edge g)

  widen : (x : A × A) (g : List (A × A)) {a b : A} → PathIn g a b → PathIn (x ∷ g) a b
  widen x g here = here
  widen x g (step {a} {b} h p) = step (ground (arith, h)) (widen x g p)

  join : (g : List (A × A)) {a b c : A} → PathIn g a b → PathIn g b c → PathIn g a c
  join g here q = q
  join g (step h p) q = step h (join g p q)

  reach_sound : (g : List (A × A)) (a b : A) → reach g a b ≡ true → PathIn g a b
  reach_sound [] a b h = let same : a ≡ b = (e.beq_iff a b).0 h in rw same here
  reach_sound ((u, v) ∷ g) a b h = elim (Bool-cases (reach g a b)) [
    | inl old ↦ widen (u, v) g (reach_sound g a b old)
    | inr new ↦
        let to : reach g a u ≡ true = ground arith in
        let from : reach g v b ≡ true = ground arith in
        join ((u, v) ∷ g) (widen (u, v) g (reach_sound g a u to))
          (step (ground (arith, beq_refl u, beq_refl v)) (widen (u, v) g (reach_sound g v b from)))
  ]

  reach_refl : (g : List (A × A)) (a : A) → reach g a a ≡ true
  reach_refl [] a = beq_refl a
  reach_refl ((u, v) ∷ g) a = ground (arith, reach_refl g a)

  reach_step :
      (g : List (A × A)) (a b c : A)
      → has_edge g a b ≡ true
      → reach g b c ≡ true
      → reach g a c ≡ true
  reach_step [] a b c h r = cc
  reach_step ((u, v) ∷ g) a b c h r = elim (Bool-cases (u == a && v == b)) [
    | inl new ↦ ground (arith, e.beq_iff u a, e.beq_iff v b, reach_refl g u)
    | inr old ↦ ground (arith, reach_step g a b c, reach_step g a b u)
  ]

  reach_complete : (g : List (A × A)) {a b : A} → PathIn g a b → reach g a b ≡ true
  reach_complete g (here {a}) = reach_refl g a
  reach_complete g (step {a} {b} {c} h p) = reach_step g a b c h (reach_complete g p)

  edge_end : (g : List (A × A)) (a b : A) → has_edge g a b ≡ true → contains (nodes g) b ≡ true
  edge_end [] a b h = cc
  edge_end ((u, v) ∷ g) a b h = ground (arith, edge_end g a b)

  edge_start : (g : List (A × A)) (a b : A) → has_edge g a b ≡ true → contains (nodes g) a ≡ true
  edge_start [] a b h = cc
  edge_start ((u, v) ∷ g) a b h = ground (arith, edge_start g a b)

  path_end : (g : List (A × A)) {a b : A} → PathIn g a b → (a ≡ b) ⊎ (contains (nodes g) b ≡ true)
  path_end g here = inl refl
  path_end g (step {a} {b} {c} h p) = elim (path_end g p) [
    | inl same ↦ inr (rw same at (edge_end g a b h))
    | inr there ↦ inr there
  ]

  pub neighbors_law :
      (g : List (A × A)) (a b : A)
      → contains (nodes g) a ≡ true
      → contains (all_neighbors g a) b ≡ (has_edge g b a || has_edge g a b)
  neighbors_law g a b h = ground (
    arith,
    contains-select (λ n. has_edge g n a || has_edge g a n) (nodes g) b,
    edge_start g b a,
    edge_end g a b,
  )

  pub present_law :
      (g : List (A × A)) (a : A) → contains (nodes g) a ≡ true → descendants g a ≢ none
  present_law g a h q = ground arith

  pub absent_law :
      (g : List (A × A)) (a : A) → contains (nodes g) a ≡ false → descendants g a ≡ none
  absent_law g a h = rw h

  contains-descendants :
      (g : List (A × A)) (a b : A) (found : List A)
      → descendants g a ≡ some found
      → contains found b ≡ (contains (nodes g) b && (not (a == b) && reach g a b))
  contains-descendants g a b found q =
      let same : descendants_of g a ≡ found = ground arith in
      rw (← same, contains-select (λ n. not (a == n) && reach g a n) (nodes g) b)

  pub sound_law :
      (g : List (A × A)) (a b : A) (found : List A)
      → descendants g a ≡ some found
      → contains found b ≡ true
      → (a ≢ b) × PathIn g a b
  sound_law g a b found q m = (
    λ p. ground (arith, contains-descendants g a b found q, e.beq_iff a b),
    reach_sound g a b (ground (arith, contains-descendants g a b found q)),
  )

  pub complete_law :
      (g : List (A × A)) (a b : A) (found : List A)
      → descendants g a ≡ some found
      → a ≢ b
      → PathIn g a b
      → contains found b ≡ true
  complete_law g a b found q differ p = elim (path_end g p) [
    | inl same ↦ absurd (differ same)
    | inr there ↦
        ground (arith, contains-descendants g a b found q, reach_complete g p, e.beq_iff a b)
  ]

abbrev pub edge_graph : Networkx
edge_graph = record {
  Graph = List (Node × Node);
  empty = [];
  add_edge = λ a b g. (a, b) ∷ g;
  nodes = nodes;
  has_edge = has_edge;
  descendants = descendants;
  all_neighbors = all_neighbors;
  has_edge-empty = λ a b. refl;
  has_edge-add_edge = λ a b c d g. refl;
  nodes-empty = refl;
  nodes-add_edge = λ a b c g. refl;
  descendants-absent = absent_law;
  descendants-present = present_law;
  descendants_sound = sound_law;
  descendants_complete = complete_law;
  all_neighbors_iff = neighbors_law;
}
