-- ===== src/Dns/Stack/Tests.antt =====
-- Runs of util/vpc-tools/vpc_dns.py on a stack with three load balancers and two databases.
use configuration.Base.{
  ◌≡◌, refl, false, Option, none, some, List, [], ◌∷◌, ◌++◌, select, String, ok, raised, name_error,
  if◌then◌else◌, ◌==◌, string_eq,
}
use configuration.Dns.Records.{
  Change, create, change_rrsets, create_hosted_zone, Route53, zone_id, changes_for, add_record,
  add_or_update_record,
}
use configuration.Dns.Stack.{
  Zone, Elb, Rds, Tags, Stack, Cname, vpc_for_stack_name, get_dns_from_instances, add_elb, add_rdss,
  stack_cnames, in_vpc, rds_in_vpc, update_elb_rds_dns, get_or_create_hosted_zone, main,
}
use configuration.Dns.Stack.Named.{Names, NamesFirst, stack_cnames-Names}

program : Unit {0}
unfolding zone_id changes_for add_record add_or_update_record vpc_for_stack_name
    get_dns_from_instances add_elb add_rdss stack_cnames update_elb_rds_dns
    get_or_create_hosted_zone main
program = tt

abbrev elb : String → String → List String → Elb
elb name dns_name instances = record {
  name = name;
  vpc_id = some "vpc";
  dns_name = dns_name;
  instances = instances;
}

abbrev elbs : List Elb
elbs =
    elb "stage-Apros" "a" ("i-1" ∷ [])
    ∷ elb "stage-XqueueELB" "x" ("i-1" ∷ [])
    ∷ record (elb "other" "o" []) { vpc_id = none }
    ∷ elb "stage-Forum" "f" ("i-2" ∷ "i-3" ∷ [])
    ∷ []

abbrev rdss : List Rds
rdss =
    record { vpc_id = none; endpoint = "e0" }
    ∷ record { vpc_id = some (some "vpc"); endpoint = "e1" }
    ∷ record { vpc_id = some (some "vpc"); endpoint = "e2" }
    ∷ []

abbrev tags : String → List (List Tags)
tags i =
    ((("environment", "stage")
        ∷ ("deployment", "edx")
        ∷ (if i == "i-1" then ("role", "cluster") else ("play", "forum"))
        ∷ [])
      ∷ [])
    ∷ []

abbrev parent : Zone
parent = record { id = "/hostedzone/P"; name = "org."; name_servers = [] }

abbrev zone : Zone
zone = record { id = "/hostedzone/Z"; name = "edx.org."; name_servers = "ns" ∷ [] }

abbrev zones : String → Option Zone
zones name = if name == "org" then some parent else none

abbrev stack : Stack
stack = record {
  find_zone = λ name. ok (zones name);
  create_zone = λ name. ok zone;
  list_stack_resources =
      ok (record { resource_type = "AWS::EC2::VPC"; physical_resource_id = "vpc" } ∷ []);
  load_balancers = ok elbs;
  databases = ok rdss;
  reservations = λ i. ok (tags i);
}

abbrev r53 : Route53
r53 = record { get_all_rrsets = λ zone. ok []; submit = λ zone changes. ok tt }

abbrev found : List Cname
found =
    record { fqdn = "stage-edx-xqueue.edx.org"; target = "x" }
    ∷ record { fqdn = "stage-edx-forum.edx.org"; target = "f" }
    ∷ record { fqdn = "stage-edx-rds.edx.org"; target = "e1" }
    ∷ []

run_names : stack_cnames stack (some "vpc") "edx.org" ≡ ok found
unfolding program
run_names = refl

abbrev creation : String → String → Change
creation name target = record {
  action = create;
  name = name;
  type = "CNAME";
  ttl = 600;
  values = target ∷ [];
}

run_main : main stack r53 false false "edx.org" ≡ (
  ok tt,
  create_hosted_zone "edx.org"
      ∷ change_rrsets "P" (
          record { action = create; name = "edx.org"; type = "NS"; ttl = 900; values = "ns" ∷ [] }
          ∷ [])
      ∷ change_rrsets "Z" (
          creation "stage-edx-xqueue.edx.org" "x"
          ∷ creation "stage-edx-forum.edx.org" "f"
          ∷ creation "stage-edx-rds.edx.org" "e1"
          ∷ [])
      ∷ [],
)
unfolding program
run_main = refl

-- A stack with a database and no load balancer.
run_unbalanced :
    stack_cnames (record stack { load_balancers = ok [] }) (some "vpc") "edx.org"
    ≡ raised name_error
unfolding program
run_unbalanced = refl

stack_cnames-Names_example :
    (elbs : List Elb) × (rdss : List Rds) × (front : List Cname) × (back : List Cname)
    × (stack.load_balancers ≡ ok elbs)
    × (stack.databases ≡ ok rdss)
    × Names stack "edx.org" (select (in_vpc (some "vpc")) elbs) front
    × NamesFirst stack "edx.org"
        (select (in_vpc (some "vpc")) elbs)
        (select (rds_in_vpc (some "vpc")) rdss)
        back
    × (found ≡ front ++ back)
stack_cnames-Names_example = stack_cnames-Names stack "edx.org" (some "vpc") found run_names
