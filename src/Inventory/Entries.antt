-- ===== src/Inventory/Entries.antt =====
-- What playbooks/edx-east/lifecycle_inventory.py enters under each name.
use Prim.Native.String.{◌++◌ as ◌<>◌}
use mathlib.Core.List.{append_assoc, append-nil}
use configuration.Base.{
  false, ◌≡◌, refl, sym, ◌∙◌, ap, Option, none, some, List, [], ◌∷◌, ◌++◌, String, ◌==◌, string_eq,
  if◌then◌else◌, ok, Dict, lookup, lookup-put, >>=-eq-ok, flat_map, for_each_appends, Bool-cases,
  inl, inr,
}
use configuration.Inventory.{
  without_colons, see_tag, see_tags, get_e_d_from_tags, Instance, GroupInstance, Group, Inventory,
  entry, add_host, add_under, names_of, found, address_of, enter, add_instance, add_group, run,
  get_instance_dict,
}

-- A host once for each of the names that is the one asked for.
abbrev pub hosts_if : String → String → List String → List String
hosts_if asked host [] = []
hosts_if asked host (name ∷ names) =
    let rest = hosts_if asked host names in if name == asked then host ∷ rest else rest

abbrev pub known_address : Option Instance → List String
known_address none = []
known_address (some i) = address_of i.private_ip_address

-- The value of the last tag that has a key.
abbrev tag_or : String → String → List (String × String) → String
tag_or key default [] = default
tag_or key default ((other, value) ∷ tags) =
    tag_or key (if other == key then value else default) tags

-- The names that a member of a group has: its state behind the environment and the deployment, the
-- group's name, its state behind that, and its state alone, each state with underscores for colons.
abbrev pub names_under : Group → GroupInstance → List String
names_under group i =
    let environment = tag_or "environment" "default_environment" group.tags in
    let deployment = tag_or "deployment" "default_deployment" group.tags in
    let state = without_colons i.lifecycle_state in
    (environment <> "_" <> deployment <> "_" <> state)
    ∷ group.name
    ∷ (group.name <> "_" <> state)
    ∷ state
    ∷ []

see_tag-values :
    (key value environment deployment : String)
    → see_tag (key, value) (environment, deployment) ≡ (
      (if key == "environment" then value else environment),
      (if key == "deployment" then value else deployment),
    )
see_tag-values key value environment deployment = elim (Bool-cases (key == "environment")) [
  | inl named ↦
      let e = (string_eq.beq_iff key "environment").0 named in
      let other : (key == "deployment") ≡ false = ap (λ k. k == "deployment") e in
      rw (named, other) refl
  | inr differs ↦ elim (Bool-cases (key == "deployment")) [
    | inl named ↦ rw (differs, named) refl
    | inr other ↦ rw (differs, other) refl
  ]
]

see_tags-values :
    (tags : List (String × String)) (environment deployment : String)
    → see_tags tags (environment, deployment)
      ≡ (tag_or "environment" environment tags, tag_or "deployment" deployment tags)
see_tags-values [] environment deployment = refl
see_tags-values ((key, value) ∷ tags) environment deployment =
    ap (see_tags tags) (see_tag-values key value environment deployment)
    ∙ see_tags-values tags (if key == "environment" then value else environment)
        (if key == "deployment" then value else deployment)

names_of_lem : (group : Group) (i : GroupInstance) → names_of group i ≡ names_under group i
unfolding names_of get_e_d_from_tags
names_of_lem group i =
    rw (see_tags-values group.tags "default_environment" "default_deployment") refl

module _ (instances : Dict String Instance) (asked : String) where
  abbrev pub hosts_of : Group → GroupInstance → List String
  hosts_of group i =
      flat_map (λ host. hosts_if asked host (names_under group i))
        (known_address (lookup i.instance_id instances))

  -- The addresses of all members of all groups that have the name, in their order.
  abbrev pub hosts_under : List Group → List String
  hosts_under groups = flat_map (λ group. flat_map (hosts_of group) group.instances) groups

address_known :
    (found_one : Option Instance) (known : Instance)
    → found found_one ≡ ok known
    → known_address found_one ≡ address_of known.private_ip_address
address_known none known e = absurd (cc e)
address_known (some i) known e =
    let same : i ≡ known = cc in ap (λ k. address_of k.private_ip_address) same

module _ (asked : String) where
  entry-add_host :
      (host name : String) (inventory : Inventory)
      → entry asked (add_host host name inventory)
        ≡ entry asked inventory ++ (if name == asked then host ∷ [] else [])
  unfolding add_host
  entry-add_host host name inventory = elim (Bool-cases (name == asked)) [
    | inl same ↦
        let e = (string_eq.beq_iff name asked).0 same in
        rw (lookup-put name asked (entry name inventory ++ host ∷ []) inventory, same)
          (ap (λ n. entry n inventory ++ host ∷ []) e)
    | inr other ↦
        rw (lookup-put name asked (entry name inventory ++ host ∷ []) inventory, other, append-nil)
          refl
  ]

  entry-add_under :
      (host : String) (names : List String) (inventory : Inventory)
      → entry asked (add_under host names inventory)
        ≡ entry asked inventory ++ hosts_if asked host names
  entry-add_under host [] inventory = sym (append-nil _)
  entry-add_under host (name ∷ names) inventory = elim (Bool-cases (name == asked)) [
    | inl same ↦
        rw
          (
            entry-add_under host names (add_host host name inventory),
            entry-add_host host name inventory,
            same,
            append_assoc,
          )
          refl
    | inr other ↦
        rw
          (
            entry-add_under host names (add_host host name inventory),
            entry-add_host host name inventory,
            other,
            append-nil,
          )
          refl
  ]

  entry-enter :
      (hosts names : List String) (inventory : Inventory)
      → entry asked (enter hosts names inventory)
        ≡ entry asked inventory ++ flat_map (λ host. hosts_if asked host names) hosts
  entry-enter [] names inventory = sym (append-nil _)
  entry-enter (host ∷ hosts) names inventory =
      rw
        (
          entry-enter hosts names (add_under host names inventory),
          entry-add_under host names inventory,
          append_assoc,
        )
        refl

  module _ (instances : Dict String Instance) where
    entry-add_instance :
        (group : Group) (i : GroupInstance) (s s' : Inventory)
        → add_instance instances group i s ≡ ok s'
        → entry asked s' ≡ entry asked s ++ hosts_of instances asked group i
    entry-add_instance group i s s' e =
        let (known, there, entered) = >>=-eq-ok (found (lookup i.instance_id instances)) _ e in
        let address = address_known (lookup i.instance_id instances) known there in
        let same : enter (address_of known.private_ip_address) (names_of group i) s ≡ s' = cc in
        rw address (
          sym (ap (entry asked) same)
          ∙ (entry-enter (address_of known.private_ip_address) (names_of group i) s
              ∙ ap
                  (λ names.
                    entry asked s
                    ++ flat_map (λ host. hosts_if asked host names)
                        (address_of known.private_ip_address))
                  (names_of_lem group i)))

    entry-add_group :
        (group : Group) (s s' : Inventory)
        → add_group instances group s ≡ ok s'
        → entry asked s'
          ≡ entry asked s ++ flat_map (hosts_of instances asked group) group.instances
    entry-add_group group =
        for_each_appends (entry asked) (hosts_of instances asked group)
          (add_instance instances group) (entry-add_instance group) group.instances

-- If the inventory is made, then it has under every name the addresses of exactly those members of
-- groups that have the name, each as often as it has it and in the order of the groups. The names of
-- a member are its state, with underscores for colons, its group's name, that name before its state,
-- and the environment and the deployment of the last tags before its state.
pub run-entry :
    (reservations : List (List Instance)) (groups : List Group) (inventory : Inventory)
    → run reservations groups ≡ ok inventory
    → (asked : String)
    → entry asked inventory ≡ hosts_under (get_instance_dict reservations) asked groups
unfolding run
run-entry reservations groups inventory e asked =
    for_each_appends (entry asked)
      (λ group. flat_map (hosts_of (get_instance_dict reservations) asked group) group.instances)
      (add_group (get_instance_dict reservations))
      (entry-add_group asked (get_instance_dict reservations)) groups [] inventory e
