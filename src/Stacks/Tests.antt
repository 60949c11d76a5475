-- ===== src/Stacks/Tests.antt =====
-- Runs of create_stack.py and of vpc-tools.py, and their theorems at small stacks.
use mathlib.Core.List.{flatten}
use configuration.Base.{
  ℕ, ◌≡◌, refl, Bool, true, false, Option, none, some, List, [], ◌∷◌, String, Result, ok, raised,
  other_error, type_error, s3_response_error, ltb, if◌then◌else◌, contains, string_eq, arith, Dict,
  flat_map,
}
use configuration.Dns.Stack.{Resource, vpc_for_stack_name}
use configuration.Stacks.Create.{
  create_bucket, upload, set_acl, create_stack_from, sleep, print, Aws, upload_file, wait_status,
  create_stack, main, failure_states,
}
use configuration.Stacks.Waited.{create_stack-over, create_stack-waits_on}
use configuration.Stacks.SshConfig as Ssh
use configuration.Stacks.Numbered.{numbered, AllDiffer, ssh_config-numbered}

program : Unit {0}
unfolding upload_file wait_status create_stack main Ssh.configs Ssh.ssh_config
    Ssh.stack_name_for_vpc Ssh.all_stack_names Ssh.rds_subnet_group_name Ssh.dispatch
    vpc_for_stack_name flatten
program = tt

-- The bucket is not there, and a stack has a status before each of two questions.
abbrev aws_with : Result String → (ℕ → String) → Aws
aws_with bucket status = record {
  get_bucket = λ name validate. if validate then bucket else ok name;
  create_bucket = λ name. ok tt;
  upload = λ key file. ok tt;
  set_acl = λ key. ok tt;
  create_stack = λ name url. ok "id";
  update_stack = λ name url. ok "id";
  describe_stacks = λ n id. ok (status n ∷ []);
}

abbrev soon : ℕ → String
soon n = if ltb n 1 then "CREATE_IN_PROGRESS" else "CREATE_COMPLETE"

abbrev url : String
url = "https://s3.amazonaws.com/b/devops/cloudformation/auto/s_t.json"

run_created :
    create_stack (aws_with (raised s3_response_error) soon) 9 "s" "/x/t.json" true "b" [] false 0
    ≡ (
      ok (some "id"),
      2,
      create_bucket "b"
          ∷ upload "b" "devops/cloudformation/auto/s_t.json" "/x/t.json"
          ∷ set_acl "b" "devops/cloudformation/auto/s_t.json" "public-read"
          ∷ print ("URL: https://s3.amazonaws.com/b/devops/cloudformation/auto/s_t.json")
          ∷ create_stack_from "s" url []
          ∷ sleep 5
          ∷ print "CREATE_IN_PROGRESS"
          ∷ sleep 5
          ∷ print "CREATE_COMPLETE"
          ∷ [],
    )
unfolding program
run_created = refl

-- An update that was rolled back is taken to be created, and so is one whose clean-up goes on.
run_rolled_back :
    (create_stack
      (aws_with (ok "b") (λ n. "UPDATE_ROLLBACK_COMPLETE"))
      9
      "s"
      "t"
      true
      "b"
      []
      true
      0).0
    ≡ ok (some "id")
unfolding program
run_rolled_back = refl

run_no_parameters :
    (main (aws_with (ok "b") soon) (λ file. ok []) 9 "s" "t" "b" none false 0).0 ≡ raised type_error
unfolding program
run_no_parameters = refl

create_stack-over_example :
    (create_stack (aws_with (ok "b") soon) 9 "s" "t" true "b" [] false 0).0
    ≡ (if contains failure_states "CREATE_COMPLETE" then raised other_error else ok (some "id"))
create_stack-over_example =
    create_stack-over (aws_with (ok "b") soon) 9 "s" "t" "b" [] false "id" 1 "CREATE_COMPLETE"
      (record { bucket = "b"; found = refl; uploaded = refl; readable = refl; submitted = refl })
      (λ i lt.
        let early : ltb i 1 ≡ true = ground arith in
        record { status = "CREATE_IN_PROGRESS"; answered = rw early refl; not_over = refl })
      (omega arith) refl refl

create_stack-waits_on_example :
    (create_stack (aws_with (ok "b") (λ n. "CREATE_FAILED")) 9 "s" "t" true "b" [] false 0).0
    ≡ ok none
create_stack-waits_on_example =
    create_stack-waits_on (aws_with (ok "b") (λ n. "CREATE_FAILED")) 9 "s" "t" "b" [] false "id"
      (record { bucket = "b"; found = refl; uploaded = refl; readable = refl; submitted = refl })
      (λ i. record { status = "CREATE_FAILED"; answered = refl; not_over = refl })

abbrev instance_of : String → Dict String String → Ssh.Instance
instance_of id tags = record {
  id = id;
  ip_address = "1.1.1.1";
  private_ip_address = "10.0.0.1";
  tags = tags;
}

abbrev instances : List (List Ssh.Instance)
instances =
    (instance_of "i-1" (("play", "lms") ∷ []) ∷ instance_of "i-2" [] ∷ [])
    ∷ (instance_of "i-3" (("group", "x") ∷ ("role", "lms") ∷ []) ∷ [])
    ∷ []

abbrev network : Resource
network = record { resource_type = "AWS::EC2::VPC"; physical_resource_id = "vpc-1" }

abbrev ssh_aws : Ssh.Aws
ssh_aws = record {
  list_stack_resources = λ name. ok (network ∷ []);
  get_all_instances = λ vpc_id. ok instances;
}

abbrev args_with : Bool → Option String → Ssh.Args
args_with vpc jump_box = record {
  ssh_config = true;
  vpc = vpc;
  stack_name_given = true;
  stack_name = "s";
  identity_file = some "";
  user = none;
  config_file = some "c";
  strict_host_check = none;
  jump_box = jump_box;
}

run_vpc : Ssh.dispatch ssh_aws (args_with true none) ≡ raised type_error
unfolding program
run_vpc = refl

run_direct :
    Ssh.configs (Ssh.settings_of (args_with false (some "none"))) (instance_of "i-1" [], "lms", 12)
    ≡ "# Instance ID: i-1\nHost 10.0.0.1\n    HostName 10.0.0.1\n    ForwardAgent yes\n    User ubuntu\n    StrictHostKeyChecking ask\n    \n    "
      ∷ "# Instance ID: i-1\nHost s-lms-12\n    HostName 10.0.0.1\n    ForwardAgent yes\n    User ubuntu\n    StrictHostKeyChecking ask\n    \n    "
      ∷ []
unfolding program
run_direct = refl

ssh_config-numbered_example :
    let named = numbered [] (flatten instances) in
    (Ssh.ssh_config ssh_aws (args_with false none)
      ≡ ok (flat_map (Ssh.configs (Ssh.settings_of (args_with false none))) named))
    × AllDiffer named
ssh_config-numbered_example =
    ssh_config-numbered ssh_aws (args_with false none) (network ∷ []) instances refl refl refl refl
