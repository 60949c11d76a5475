-- ===== src/Dns/Stack.antt =====
-- The rest of util/vpc-tools/vpc_dns.py: the hosted zone, the names of a stack's load balancers and
-- databases, and the main. What boto answers is a parameter. A set of records is the list in which
-- it is walked, and the keys of a dictionary come in the order in which they are written.
pub mod Named
mod Tests
use Prim.Native.Char.{code}
use Prim.Native.String.{◌++◌ as ◌<>◌}
use text.Mathlib.Text.{starts_with}
use configuration.Base.{
  has_part, ℕ, Bool, true, false, not, ◌&&◌, ◌||◌, Option, none, some, List, [], ◌∷◌, ◌++◌, map,
  select, String, ◌==◌, string_eq, nat_eq, if◌then◌else◌, Result, ok, raised, system_exit,
  name_error, attribute_error, Dict, lookup, contains, insert, any, ◌>>=◌ as ◌>>>=◌, for_each,
}
use configuration.Base.Traced.{Traced, from, perform, ◌>>=◌, ◌>>◌}
use configuration.Dns.Records.{
  DnsRecord, Call, create_hosted_zone, Route53, drop_last, add_or_update_record,
}

pub record Zone : Type 0 where
  pub id : String
  -- with a dot at its end
  pub name : String
  pub name_servers : List String

-- A resource of a stack.
pub record Resource : Type 0 where
  pub resource_type : String
  pub physical_resource_id : String

pub record Elb : Type 0 where
  pub name : String
  pub vpc_id : Option String
  pub dns_name : String
  pub instances : List String

pub record Rds : Type 0 where
  -- the network of its subnet group, if that has the attribute
  pub vpc_id : Option (Option String)
  pub endpoint : String

abbrev pub Tags : Type 0
Tags = Dict String String

-- What boto answers.
pub record Stack : Type 0 where
  pub find_zone : String → Result (Option Zone)
  pub create_zone : String → Result Zone
  pub list_stack_resources : Result (List Resource)
  pub load_balancers : Result (List Elb)
  pub databases : Result (List Rds)
  -- the tags of the instances of each reservation
  pub reservations : String → Result (List (List Tags))

abbrev pub elb_ban_list : List String
elb_ban_list = "Apros" ∷ []

abbrev pub elb_play_mappings : Dict String String
elb_play_mappings =
    ("RabbitMQ", "rabbitmq") ∷ ("Xqueue", "xqueue") ∷ ("Elastic", "elasticsearch") ∷ []

-- `".".join(name.split(".")[1:])`
abbrev pub parent_name : String → String
parent_name String.[] = ""
parent_name (String.◌∷◌ c s) = let rest = parent_name s in if code c == 46 then s else rest

-- A record set of "CNAME", without its zone.
pub record Cname : Type 0 where
  pub fqdn : String
  pub target : String

-- The environment, the deployment and the play.
abbrev pub NameParts : Type 0
NameParts = String × String × String

abbrev pub tag_or_exit : Option String → Result String
tag_or_exit none = raised (system_exit 1)
tag_or_exit (some value) = ok value

abbrev pub play_tag : Tags → Option String → Result String
play_tag tags (some play) = ok play
play_tag tags none = tag_or_exit (lookup "role" tags)

abbrev pub parts_of : Tags → Result NameParts
parts_of tags = tag_or_exit (lookup "environment" tags) >>>= λ env_tag.
    tag_or_exit (lookup "deployment" tags) >>>= λ deployment_tag.
    play_tag tags (lookup "play" tags) >>>= λ play. ok (env_tag, deployment_tag, play)

abbrev pub first_instance : List (List Tags) → Result NameParts
first_instance ((tags ∷ instances) ∷ reservations) = parts_of tags
first_instance reservations = raised (system_exit 1)

abbrev pub overridden : String → Dict String String → String → String
overridden name [] play = play
overridden name ((key, other) ∷ mappings) play =
    let rest = overridden name mappings play in if has_part key name then other else rest

abbrev pub is_banned : Elb → Bool
is_banned elb = any (λ part. has_part part elb.name) elb_ban_list

abbrev pub fqdn_of : NameParts → String → String
fqdn_of (env_tag, deployment_tag, play) zone_name =
    env_tag <> "-" <> deployment_tag <> "-" <> play <> "." <> zone_name

abbrev pub elb_parts : Elb → NameParts → NameParts
elb_parts elb (env_tag, deployment_tag, play) =
    (env_tag, deployment_tag, overridden elb.name elb_play_mappings play)

abbrev pub elb_cname : String → Elb → NameParts → Cname
elb_cname zone_name elb parts = record {
  fqdn = fqdn_of (elb_parts elb parts) zone_name;
  target = elb.dns_name;
}

-- The records so far, and the variables of the last turn of the loop.
pub record Found : Type 0 where
  pub cnames : List Cname
  pub parts : Option NameParts

abbrev pub nothing_found : Found
nothing_found = record { cnames = []; parts = none }

abbrev pub is_same : Option String → Option String → Bool
is_same none none = true
is_same (some a) (some b) = a == b
is_same a b = false

abbrev pub in_vpc : Option String → Elb → Bool
in_vpc vpc_id elb = is_same elb.vpc_id vpc_id

abbrev pub is_own : Option (Option String) → Option String → Bool
is_own none vpc_id = false
is_own (some own) vpc_id = is_same own vpc_id

abbrev pub rds_in_vpc : Option String → Rds → Bool
rds_in_vpc vpc_id rds = is_own rds.vpc_id vpc_id

-- `vpc_for_stack_name` of util/vpc-tools/vpcutil.py
unfoldable pub vpc_for_stack_name : List Resource → Option String
vpc_for_stack_name [] = none
vpc_for_stack_name (resource ∷ resources) =
    let rest = vpc_for_stack_name resources in
    if resource.resource_type == "AWS::EC2::VPC" then some resource.physical_resource_id else rest

abbrev pub rds_cname : String → String → NameParts → Cname
rds_cname zone_name endpoint (env_tag, deployment_tag, play) = record {
  fqdn = fqdn_of (env_tag, deployment_tag, "rds") zone_name;
  target = endpoint;
}

-- Each turn takes the endpoint of the first database.
unfoldable pub add_rdss : String → String → NameParts → List Rds → List String → List Cname
add_rdss zone_name endpoint parts [] rds_endpoints = []
add_rdss zone_name endpoint parts (rds ∷ rdss) rds_endpoints =
    let rest = add_rdss zone_name endpoint parts rdss (insert endpoint rds_endpoints) in
    if contains rds_endpoints endpoint then rest else rds_cname zone_name endpoint parts ∷ rest

abbrev pub rds_cnames : String → Option NameParts → List Rds → Result (List Cname)
rds_cnames zone_name parts [] = ok []
rds_cnames zone_name none (rds ∷ rdss) = raised name_error
rds_cnames zone_name (some parts) (rds ∷ rdss) =
    ok (add_rdss zone_name rds.endpoint parts (rds ∷ rdss) [])

module _ (stack : Stack) where
  -- Only the first instance is looked at; without one the variables are not bound.
  abbrev pub first_parts : List String → Result NameParts
  first_parts [] = raised name_error
  first_parts (i ∷ instances) = stack.reservations i >>>= first_instance

  unfoldable pub get_dns_from_instances : Elb → Result NameParts
  get_dns_from_instances elb = first_parts elb.instances

  unfoldable pub add_elb : String → Elb → Found → Result Found
  add_elb zone_name elb s = get_dns_from_instances elb >>>= λ parts. ok (record {
    cnames = if is_banned elb then s.cnames else s.cnames ++ elb_cname zone_name elb parts ∷ [];
    parts = some (elb_parts elb parts);
  })

  unfoldable pub stack_cnames : Option String → String → Result (List Cname)
  stack_cnames vpc_id zone_name = stack.load_balancers >>>= λ elbs.
      for_each (add_elb zone_name) (select (in_vpc vpc_id) elbs) nothing_found >>>= λ found.
      stack.databases >>>= λ rdss.
      rds_cnames zone_name found.parts (select (rds_in_vpc vpc_id) rdss) >>>= λ more.
      ok (found.cnames ++ more)

abbrev pub cname_record : Zone → Cname → DnsRecord
cname_record zone cname = record {
  zone_path = zone.id;
  record_name = cname.fqdn;
  record_type = "CNAME";
  record_ttl = 600;
  record_values = cname.target ∷ [];
}

-- The records are of the zone, which has to be there if there are any.
abbrev pub in_zone : Option Zone → List Cname → Result (List DnsRecord)
in_zone _ [] = ok []
in_zone none (cname ∷ cnames) = raised attribute_error
in_zone (some zone) cnames = ok (map (cname_record zone) cnames)

abbrev pub name_in : Bool → Option Zone → Result String
name_in true none = ok "<zone name>"
name_in false none = raised attribute_error
name_in noop (some zone) = ok (drop_last zone.name)

module _ (stack : Stack) (r53 : Route53) (noop force : Bool) where
  unfoldable pub update_elb_rds_dns : Option Zone → Traced Call (Unit {0})
  update_elb_rds_dns zone =
      from (
        stack.list_stack_resources >>>= λ resources. name_in noop zone >>>= λ zone_name.
        stack_cnames stack (vpc_for_stack_name resources) zone_name >>>= in_zone zone)
      >>= add_or_update_record r53 noop force

  abbrev pub make_zone : String → Option Zone → Traced Call Zone
  make_zone zone_name (some zone) = from (ok zone)
  make_zone zone_name none = perform (create_hosted_zone zone_name) (stack.create_zone zone_name)

  abbrev pub name_server_record : Zone → String → Zone → DnsRecord
  name_server_record parent_zone zone_name zone = record {
    zone_path = parent_zone.id;
    record_name = zone_name;
    record_type = "NS";
    record_ttl = 900;
    record_values = zone.name_servers;
  }

  abbrev pub update_parent : Option Zone → String → Zone → Traced Call (Unit {0})
  update_parent none zone_name zone = from (ok tt)
  update_parent (some parent_zone) zone_name zone =
      add_or_update_record r53 noop force (name_server_record parent_zone zone_name zone ∷ [])

  abbrev pub create_or_update : String → Option Zone → Option Zone → Traced Call (Option Zone)
  create_or_update zone_name found parent_zone = make_zone zone_name found >>= λ zone.
      update_parent parent_zone zone_name zone >>= λ _. from (ok (some zone))

  unfoldable pub get_or_create_hosted_zone : String → Traced Call (Option Zone)
  get_or_create_hosted_zone zone_name = from (stack.find_zone zone_name) >>= λ zone.
      from (stack.find_zone (parent_name zone_name)) >>= λ parent_zone.
      if noop then from (ok zone) else create_or_update zone_name zone parent_zone

  unfoldable pub main : String → Traced Call (Unit {0})
  main zone_name = get_or_create_hosted_zone zone_name >>= update_elb_rds_dns
