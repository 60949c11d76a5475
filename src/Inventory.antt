-- ===== src/Inventory.antt =====
-- The inventory of playbooks/edx-east/lifecycle_inventory.py, by groups and states of their life
-- cycle. What boto answers is given as lists; the output is the dictionary that is printed as JSON.
pub mod Entries
mod Tests
use Prim.Native.Char.{Char, code}
use Prim.Native.String.{◌++◌ as ◌<>◌}
use configuration.Base.{
  Bool, true, false, not, Option, none, some, List, [], ◌∷◌, ◌++◌, String, ◌==◌, string_eq, nat_eq,
  if◌then◌else◌, Result, ok, raised, key_error, Dict, lookup, put, ◌>>=◌, for_each,
}

pub record Instance : Type 0 where
  pub id : String
  pub private_ip_address : Option String

pub record GroupInstance : Type 0 where
  pub instance_id : String
  pub lifecycle_state : String

pub record Group : Type 0 where
  pub name : String
  pub tags : List (String × String)
  pub instances : List GroupInstance

-- The environment and the deployment after one more tag.
abbrev pub see_tag : String × String → String × String → String × String
see_tag (key, value) (environment, deployment) =
    if key == "environment"
    then (value, deployment)
    else if key == "deployment"
    then (environment, value)
    else (environment, deployment)

abbrev pub see_tags : List (String × String) → String × String → String × String
see_tags [] e_d = e_d
see_tags (tag ∷ tags) e_d = see_tags tags (see_tag tag e_d)

unfoldable pub get_e_d_from_tags : Group → String × String
get_e_d_from_tags group = see_tags group.tags ("default_environment", "default_deployment")

abbrev pub all_instances : List (List Instance) → Dict String Instance → Dict String Instance
all_instances [] instances = instances
all_instances ([] ∷ reservations) instances = all_instances reservations instances
all_instances ((i ∷ more) ∷ reservations) instances =
    all_instances (more ∷ reservations) (put i.id i instances)

unfoldable pub get_instance_dict : List (List Instance) → Dict String Instance
get_instance_dict reservations = all_instances reservations []

-- `state.replace(":", "_")`
abbrev pub without_colons : String → String
without_colons String.[] = String.[]
without_colons (String.◌∷◌ c s) = String.◌∷◌ (if code c == 58 then "_" else c) (without_colons s)

abbrev pub Inventory : Type 0
Inventory = Dict String (List String)

abbrev pub or_empty : Option (List String) → List String
or_empty none = []
or_empty (some hosts) = hosts

-- What a `defaultdict(list)` has under a name.
abbrev pub entry : String → Inventory → List String
entry name inventory = or_empty (lookup name inventory)

unfoldable pub add_host : String → String → Inventory → Inventory
add_host host name inventory = put name (entry name inventory ++ host ∷ []) inventory

abbrev pub add_under : String → List String → Inventory → Inventory
add_under host [] inventory = inventory
add_under host (name ∷ names) inventory = add_under host names (add_host host name inventory)

-- The names under which an instance is entered, in the order of the entries.
unfoldable pub names_of : Group → GroupInstance → List String
names_of group i =
    let state = without_colons i.lifecycle_state in
    let (environment, deployment) = get_e_d_from_tags group in
    (environment <> "_" <> deployment <> "_" <> state)
    ∷ group.name
    ∷ (group.name <> "_" <> state)
    ∷ state
    ∷ []

abbrev pub found : Option Instance → Result Instance
found none = raised key_error
found (some i) = ok i

-- An address that is `None` or empty is passed over.
abbrev pub address_of : Option String → List String
address_of none = []
address_of (some host) = if host == "" then [] else host ∷ []

abbrev pub enter : List String → List String → Inventory → Inventory
enter [] names inventory = inventory
enter (host ∷ hosts) names inventory = enter hosts names (add_under host names inventory)

module _ (instances : Dict String Instance) where
  abbrev pub add_instance : Group → GroupInstance → Inventory → Result Inventory
  add_instance group i inventory = found (lookup i.instance_id instances) >>= λ known.
      ok (enter (address_of known.private_ip_address) (names_of group i) inventory)

  abbrev pub add_group : Group → Inventory → Result Inventory
  add_group group = for_each (add_instance group) group.instances

-- What `run` prints.
unfoldable pub run : List (List Instance) → List Group → Result Inventory
run reservations groups = for_each (add_group (get_instance_dict reservations)) groups []
