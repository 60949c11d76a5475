-- ===== src/Active.antt =====
-- playbooks/active_instances_in_asg.py, which prints the address of one instance of the one active
-- group. What botocore answers is a parameter; the keys of a dictionary come in the order in which
-- they were entered.
pub mod Members
pub mod Chosen
mod Tests
use configuration.Base.{
  ℕ, suc, Bool, true, false, ◌&&◌, Option, none, some, List, [], ◌∷◌, ◌++◌, map, String, ◌==◌,
  string_eq, ltb, if◌then◌else◌, length, Result, ok, raised, key_error, index_error, Dict, lookup,
  put, insert, ◌>>=◌, for_each, flat_map,
}

pub record Group : Type 0 where
  pub name : String
  pub tags : List (String × String)
  pub instances : List String
  pub load_balancer_names : List String

pub record InstanceState : Type 0 where
  pub instance_id : String
  pub state : String

-- What botocore answers: the health of a load balancer's instances, and the private addresses of
-- the instances of each reservation.
pub record Aws : Type 0 where
  pub health : String → Result (List InstanceState)
  pub describe : String → Result (List (List (Option String)))

abbrev pub named_by : String → Group → List (String × String) → List Group
named_by asg_name group [] = []
named_by asg_name group ((key, value) ∷ tags) =
    let rest = named_by asg_name group tags in
    if key == "Name" && value == asg_name then group ∷ rest else rest

-- A group comes once for each of its tags that matches.
unfoldable pub matching_groups : String → List Group → List Group
matching_groups asg_name groups = flat_map (λ group. named_by asg_name group group.tags) groups

abbrev pub enter_groups : List Group → Dict String (List String) → Dict String (List String)
enter_groups [] entries = entries
enter_groups (g ∷ groups) entries = enter_groups groups (put g.name g.instances entries)

unfoldable pub groups_to_instances : List Group → Dict String (List String)
groups_to_instances groups = enter_groups groups []

abbrev pub enter_instances : String → List String → Dict String String → Dict String String
enter_instances name [] entries = entries
enter_instances name (i ∷ instances) entries = enter_instances name instances (put i name entries)

abbrev pub enter_members : List Group → Dict String String → Dict String String
enter_members [] entries = entries
enter_members (g ∷ groups) entries =
    enter_members groups (enter_instances g.name g.instances entries)

unfoldable pub instances_to_groups : List Group → Dict String String
instances_to_groups groups = enter_members groups []

abbrev pub at_key {ℓ} : {A : Type ℓ} → Option A → Result A
at_key none = raised key_error
at_key (some a) = ok a

abbrev pub in_service : List InstanceState → List String
in_service [] = []
in_service (i ∷ states) =
    let rest = in_service states in if i.state == "InService" then i.instance_id ∷ rest else rest

abbrev pub group_names : List Group → List String → List String
group_names [] names = names
group_names (g ∷ groups) names = group_names groups (insert g.name names)

abbrev pub first_address : List (List (Option String)) → Result (Option String)
first_address ((address ∷ instances) ∷ reservations) = ok address
first_address reservations = raised index_error

module _ (aws : Aws) where
  abbrev pub add_active : Dict String String → String → List String → Result (List String)
  add_active groups_of i active = at_key (lookup i groups_of) >>= λ name. ok (insert name active)

  abbrev pub add_balancer : Dict String String → String → List String → Result (List String)
  add_balancer groups_of name active =
      aws.health name >>= λ states. for_each (add_active groups_of) (in_service states) active

  abbrev pub add_balancers : Dict String String → Group → List String → Result (List String)
  add_balancers groups_of group = for_each (add_balancer groups_of) group.load_balancer_names

  unfoldable pub active_groups : List Group → Result (List String)
  active_groups groups =
      if ltb 1 (length groups)
      then for_each (add_balancers (instances_to_groups groups)) groups []
      else ok (group_names groups [])

  abbrev pub printed : Option String → Result (Option String) → Result (Option String)
  printed none rest = rest
  printed (some address) rest = ok (some address)

  abbrev pub first_of_instances : List String → Result (Option String) → Result (Option String)
  first_of_instances [] rest = rest
  first_of_instances (i ∷ instances) rest = aws.describe i >>= λ reservations.
      first_address reservations >>= λ address. printed address (first_of_instances instances rest)

  abbrev pub first_of_groups : Dict String (List String) → List String → Result (Option String)
  first_of_groups entries [] = ok none
  first_of_groups entries (name ∷ names) = at_key (lookup name entries) >>= λ instances.
      first_of_instances instances (first_of_groups entries names)

  abbrev pub choose : List Group → List String → Result (Option String)
  choose groups active =
      if ltb 1 (length groups) && ltb 1 (length active)
      then ok none
      else first_of_groups (groups_to_instances groups) active

  -- What `run` prints.
  unfoldable pub run : String → List Group → Result (Option String)
  run asg_name groups =
      let matching = matching_groups asg_name groups in active_groups matching >>= choose matching
