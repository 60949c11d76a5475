-- ===== src/Dependencies/Build/Edges.antt =====
-- Which edges `build_graph` makes.
use configuration.Base.{
  ◌≡◌, refl, ap, ◌∙◌, inl, inr, Bool, false, ◌&&◌, ◌||◌, List, [], String, arith, ◌==◌, string_eq,
  if◌then◌else◌, Result, ok, raised, ◌>>=◌, >>=-eq-ok, for_each, for_each_adds, any, Bool-cases,
}
use configuration.Dependencies.Yaml.{
  Yaml, null, mapping, Loaded, invalid, loaded, Name, called, open_yaml_file, has_key, get_item,
  iterate, get_role_name, hashed,
}
use configuration.Dependencies.Graph.{Node, node_eq, Networkx}
use configuration.Dependencies.Build.{
  RoleItem, PlayItem, stem, is_yml, add_use, add_all, add_uses, unless_null, map_role_file,
  map_roles_to_roles, map_play_file, map_play_item, map_plays_to_roles, build_graph,
}

abbrev or_empty {ℓ} : {A : Type ℓ} → Result (List A) → List A
or_empty (ok xs) = xs
or_empty (raised e) = []

abbrev is_node : String → Result Name → Node → Bool
is_node type (ok name) a = record { name = name; type = type } == a
is_node type (raised e) a = false

-- The values listed under a key.
pub list_under : String → Yaml → List Yaml
list_under key value = or_empty (get_item key value >>= iterate)

-- `a → b` is the edge for one dependent of `node_1`, or for one of those under the key.
pub declares_one : String → Node → Node → Node → Yaml → Bool
declares_one type_2 node_1 a b dependent =
    is_node type_2 (get_role_name dependent >>= hashed) a && node_1 == b

pub declares : String → String → Node → Node → Node → Yaml → Bool
declares key type_2 node_1 a b value = any (declares_one type_2 node_1 a b) (list_under key value)

abbrev in_file : (Yaml → Bool) → Loaded → Bool
in_file test invalid = false
in_file test (loaded y) = test y

abbrev pub role_declares : Node → Node → RoleItem → Bool
role_declares a b item =
    any
      (in_file
        (declares "dependencies" "role" (record { name = called item.name; type = "role" }) a b))
      item.metas

abbrev pub play_declares : String → Node → Node → PlayItem → Bool
play_declares type_1 a b item =
    if is_yml item.file
    then in_file
        (λ y.
          any
            (declares "roles" "role" (record { name = called (stem item.file); type = type_1 }) a b)
            (or_empty (iterate y)))
        item.content
    else false

list_under-absent :
    (key : String) (value : Yaml) → has_key key value ≡ ok false → list_under key value ≡ []
unfolding has_key list_under get_item
list_under-absent key (mapping fields) h = ground arith
list_under-absent key null h = refl
list_under-absent key _ h = refl

declares-null :
    (key type_2 : String) (node_1 a b : Node) → declares key type_2 node_1 a b null ≡ false
unfolding declares list_under get_item
declares-null key type_2 node_1 a b = refl

module _ (nx : Networkx) (a b : Node) where
  open nx use {Graph, empty, add_edge, has_edge, has_edge-empty, has_edge-add_edge}

  see : Graph → Bool
  see g = has_edge g a b

  see-add_use :
      (type_2 : String) (node_1 : Node) (dependent : Yaml) (g g' : Graph)
      → add_use nx type_2 node_1 dependent g ≡ ok g'
      → see g' ≡ (declares_one type_2 node_1 a b dependent || see g)
  unfolding add_use declares_one see
  see-add_use type_2 node_1 dependent g g' h =
      let (role, r, rest) = >>=-eq-ok (get_role_name dependent) _ h in
      let (name, n, done) = >>=-eq-ok (hashed role) _ rest in
      ground
        (arith, r, n, done, has_edge-add_edge (record { name = name; type = type_2 }) node_1 a b g)

  see-add_all :
      (key type_2 : String) (node_1 : Node) (value : Yaml) (g g' : Graph)
      → add_all nx key type_2 node_1 value g ≡ ok g'
      → see g' ≡ (declares key type_2 node_1 a b value || see g)
  unfolding add_all declares list_under
  see-add_all key type_2 node_1 value g g' h =
      let (list, l, rest) = >>=-eq-ok (get_item key value) _ h in
      let (dependents, d, loop) = >>=-eq-ok (iterate list) _ rest in
      rw (l, d)
        (for_each_adds see (declares_one type_2 node_1 a b) (add_use nx type_2 node_1)
          (see-add_use type_2 node_1) dependents g g' loop)

  declares_nothing :
      (key type_2 : String) (node_1 : Node) (value : Yaml) (g g' : Graph)
      → has_key key value ≡ ok false
      → ok g ≡ ok g'
      → see g' ≡ (declares key type_2 node_1 a b value || see g)
  unfolding declares
  declares_nothing key type_2 node_1 value g g' absent same =
      rw (list_under-absent key value absent) (ground arith)

  see-add_uses :
      (key type_2 : String) (node_1 : Node) (value : Yaml) (g g' : Graph)
      → add_uses nx key type_2 node_1 value g ≡ ok g'
      → see g' ≡ (declares key type_2 node_1 a b value || see g)
  unfolding add_uses
  see-add_uses key type_2 node_1 value g g' h =
      let (found, f, rest) = >>=-eq-ok (has_key key value) _ h in
      elim (Bool-cases found) [
        | inl there ↦ see-add_all key type_2 node_1 value g g' (rw there at rest)
        | inr absent ↦
            declares_nothing key type_2 node_1 value g g' (f ∙ ap ok absent) (rw absent at rest)
      ]

  see-map_role_file :
      (name : String) (file : Loaded) (g g' : Graph)
      → map_role_file nx "dependencies" "role" "role" name file g ≡ ok g'
      → see g' ≡ (
          in_file
            (declares "dependencies" "role" (record { name = called name; type = "role" }) a b)
            file
          || see g)
  unfolding map_role_file unless_null open_yaml_file
  see-map_role_file name invalid g g' h = cc
  see-map_role_file name (loaded null) g g' h = ground (
    arith,
    declares-null "dependencies" "role" (record { name = called name; type = "role" }) a b,
  )
  see-map_role_file name (loaded y) g g' h =
      see-add_uses "dependencies" "role" (record { name = called name; type = "role" }) y g g' h

  see-map_roles_to_roles :
      (dirs : List (List RoleItem)) (g g' : Graph)
      → map_roles_to_roles nx dirs "dependencies" "role" "role" g ≡ ok g'
      → see g' ≡ (any (any (role_declares a b)) dirs || see g)
  unfolding map_roles_to_roles
  see-map_roles_to_roles = for_each_adds see (any (role_declares a b)) _ (
      for_each_adds see (role_declares a b) _
        (λ item. for_each_adds see _ _ (see-map_role_file item.name) item.metas))

  see-plays :
      (node_1 : Node) (y : Yaml) (g g' : Graph)
      → (iterate y >>= λ plays. for_each (add_uses nx "roles" "role" node_1) plays g) ≡ ok g'
      → see g' ≡ (any (declares "roles" "role" node_1 a b) (or_empty (iterate y)) || see g)
  see-plays node_1 y g g' h =
      let (plays, p, loop) = >>=-eq-ok (iterate y) _ h in
      rw p (
        for_each_adds see (declares "roles" "role" node_1 a b) (add_uses nx "roles" "role" node_1)
          (see-add_uses "roles" "role" node_1) plays g g' loop)

  see-map_play_file :
      (node_1 : Node) (file : Loaded) (g g' : Graph)
      → map_play_file nx "roles" "role" node_1 file g ≡ ok g'
      → see g' ≡ (
          in_file (λ y. any (declares "roles" "role" node_1 a b) (or_empty (iterate y))) file
          || see g)
  unfolding map_play_file unless_null open_yaml_file
  see-map_play_file node_1 invalid g g' h = cc
  see-map_play_file node_1 (loaded null) g g' h = unfold iterate in ground arith
  see-map_play_file node_1 (loaded y) g g' h = see-plays node_1 y g g' h

  see-map_play_item :
      (type_1 : String) (item : PlayItem) (g g' : Graph)
      → map_play_item nx "roles" type_1 "role" item g ≡ ok g'
      → see g' ≡ (play_declares type_1 a b item || see g)
  unfolding map_play_item
  see-map_play_item type_1 item g g' h = elim (Bool-cases (is_yml item.file)) [
    | inl yml ↦ rw yml (
        see-map_play_file (record { name = called (stem item.file); type = type_1 }) item.content g
          g' (rw yml at h))
    | inr other ↦ let h' : ok g ≡ ok g' = rw other at h in rw other (ground arith)
  ]

  see-map_plays_to_roles :
      (type_1 : String) (dirs : List (List PlayItem)) (g g' : Graph)
      → map_plays_to_roles nx dirs "roles" type_1 "role" g ≡ ok g'
      → see g' ≡ (any (any (play_declares type_1 a b)) dirs || see g)
  unfolding map_plays_to_roles
  see-map_plays_to_roles type_1 =
      for_each_adds see (any (play_declares type_1 a b)) _
        (for_each_adds see (play_declares type_1 a b) _ (see-map_play_item type_1))

pub has_edge-build_graph :
    (nx : Networkx) (a b : Node) (roles_dirs : List (List RoleItem))
    (aws_play_dirs docker_play_dirs : List (List PlayItem)) (g : nx.Graph)
    → build_graph nx roles_dirs aws_play_dirs docker_play_dirs ≡ ok g
    → nx.has_edge g a b ≡ (
        any (any (role_declares a b)) roles_dirs
        || (any (any (play_declares "aws_playbook" a b)) aws_play_dirs
            || any (any (play_declares "docker_playbook" a b)) docker_play_dirs))
unfolding build_graph see
has_edge-build_graph nx a b roles aws docker g h =
    let (g₁, r, rest) =
      >>=-eq-ok (map_roles_to_roles nx roles "dependencies" "role" "role" nx.empty) _ h in
    let (g₂, p, last) =
      >>=-eq-ok (map_plays_to_roles nx aws "roles" "aws_playbook" "role" g₁) _ rest in
    ground (
      arith,
      see-map_roles_to_roles nx a b roles nx.empty g₁ r,
      see-map_plays_to_roles nx a b "aws_playbook" aws g₁ g₂ p,
      see-map_plays_to_roles nx a b "docker_playbook" docker g₂ g last,
      nx.has_edge-empty a b,
    )
