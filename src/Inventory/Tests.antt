-- ===== src/Inventory/Tests.antt =====
-- An inventory of two groups, one of which has an instance without an address.
use configuration.Base.{◌≡◌, refl, none, some, List, [], ◌∷◌, String, ok, raised, key_error}
use configuration.Inventory.{
  Instance, GroupInstance, Group, Inventory, get_e_d_from_tags, get_instance_dict, add_host,
  names_of, entry, run,
}
use configuration.Inventory.Entries.{hosts_under, run-entry}

program : Unit {0}
unfolding get_e_d_from_tags get_instance_dict add_host names_of run
program = tt

abbrev reservations : List (List Instance)
reservations =
    (record { id = "i-1"; private_ip_address = some "10.0.0.1" }
      ∷ record { id = "i-2"; private_ip_address = none }
      ∷ [])
    ∷ (record { id = "i-3"; private_ip_address = some "10.0.0.3" } ∷ [])
    ∷ []

abbrev member : String → String → GroupInstance
member instance_id lifecycle_state = record {
  instance_id = instance_id;
  lifecycle_state = lifecycle_state;
}

abbrev groups : List Group
groups =
    record {
      name = "web";
      tags = ("environment", "stage") ∷ ("deployment", "edx") ∷ [];
      instances = member "i-1" "InService" ∷ member "i-2" "InService" ∷ [];
    }
    ∷ record {
      name = "worker";
      tags = [];
      instances = member "i-3" "Terminating:Wait" ∷ member "i-1" "InService" ∷ [];
    }
    ∷ []

abbrev inventory : Inventory
inventory =
    ("stage_edx_InService", "10.0.0.1" ∷ [])
    ∷ ("web", "10.0.0.1" ∷ [])
    ∷ ("web_InService", "10.0.0.1" ∷ [])
    ∷ ("InService", "10.0.0.1" ∷ "10.0.0.1" ∷ [])
    ∷ ("default_environment_default_deployment_Terminating_Wait", "10.0.0.3" ∷ [])
    ∷ ("worker", "10.0.0.3" ∷ "10.0.0.1" ∷ [])
    ∷ ("worker_Terminating_Wait", "10.0.0.3" ∷ [])
    ∷ ("Terminating_Wait", "10.0.0.3" ∷ [])
    ∷ ("default_environment_default_deployment_InService", "10.0.0.1" ∷ [])
    ∷ ("worker_InService", "10.0.0.1" ∷ [])
    ∷ []

run_groups : run reservations groups ≡ ok inventory
unfolding program
run_groups = refl

run_unknown : run [] groups ≡ raised key_error
unfolding program
run_unknown = refl

run-entry_example :
    entry "InService" inventory ≡ hosts_under (get_instance_dict reservations) "InService" groups
run-entry_example = run-entry reservations groups inventory run_groups "InService"
