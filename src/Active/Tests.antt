-- ===== src/Active/Tests.antt =====
-- Runs of playbooks/active_instances_in_asg.py on two groups at one load balancer.
use configuration.Base.{
  ◌<◌, length, map, ◌≡◌, refl, none, some, List, [], ◌∷◌, String, ok, raised, key_error, ◌==◌,
  string_eq, if◌then◌else◌, arith,
}
use configuration.Active.{
  Group, InstanceState, Aws, matching_groups, groups_to_instances, instances_to_groups,
  active_groups, run,
}
use configuration.Active.Chosen.{IsOf, IsSole, run-IsSole}

program : Unit {0}
unfolding matching_groups groups_to_instances instances_to_groups active_groups run
program = tt

abbrev group : String → List String → Group
group name instances = record {
  name = name;
  tags = ("Name", "app") ∷ [];
  instances = instances;
  load_balancer_names = "elb" ∷ [];
}

abbrev groups : List Group
groups = group "blue" ("i-1" ∷ "i-2" ∷ []) ∷ group "green" ("i-3" ∷ []) ∷ []

abbrev state_of : String → String → InstanceState
state_of i state = record { instance_id = i; state = state }

abbrev serving_only : List String → Aws
serving_only instances = record {
  health =
      λ balancer. ok (state_of "i-3" "OutOfService" ∷ map (λ i. state_of i "InService") instances);
  describe = λ i. ok (((if i == "i-1" then none else some "10.0.0.2") ∷ []) ∷ []);
}

run_one : run (serving_only ("i-1" ∷ "i-2" ∷ [])) "app" groups ≡ ok (some "10.0.0.2")
unfolding program
run_one = refl

run_both : run (serving_only ("i-1" ∷ "i-3" ∷ [])) "app" groups ≡ ok none
unfolding program
run_both = refl

-- An instance of a group that does not match is in service.
run_foreign : run (serving_only ("i-1" ∷ "i-4" ∷ [])) "app" groups ≡ raised key_error
unfolding program
run_foreign = refl

two_matching : 1 < length (matching_groups "app" groups)
unfolding program
two_matching = omega arith

run-IsSole_example :
    (name : String) × IsOf
      (serving_only ("i-1" ∷ "i-2" ∷ []))
      "10.0.0.2"
      name
      (matching_groups "app" groups)
    × IsSole (serving_only ("i-1" ∷ "i-2" ∷ [])) name (matching_groups "app" groups)
run-IsSole_example =
    run-IsSole (serving_only ("i-1" ∷ "i-2" ∷ [])) "app" groups "10.0.0.2" two_matching run_one
