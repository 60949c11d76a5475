-- ===== src/Stacks/SshConfig.antt =====
-- util/vpc-tools/vpc-tools.py, with the look-ups of util/vpc-tools/vpcutil.py. The arguments are those
-- that docopt finds; addresses are given as they are formatted.
use Prim.Native.String.{◌++◌ as ◌<>◌}
use configuration.Base.{
  ℕ, suc, Bool, ◌||◌, Option, none, some, List, [], ◌∷◌, ◌++◌, String, ◌==◌, string_eq,
  if◌then◌else◌, is_empty, show_nat, Result, ok, raised, type_error, index_error, other_error, Dict,
  lookup, put, ◌>>=◌,
}
use configuration.Dns.Stack.{Resource, vpc_for_stack_name}

pub record Args : Type 0 where
  pub ssh_config : Bool
  pub vpc : Bool
  pub stack_name_given : Bool
  pub stack_name : String
  pub identity_file : Option String
  pub user : Option String
  pub config_file : Option String
  pub strict_host_check : Option String
  pub jump_box : Option String

pub record Instance : Type 0 where
  pub id : String
  pub ip_address : String
  pub private_ip_address : String
  pub tags : Dict String String

pub record Aws : Type 0 where
  pub list_stack_resources : String → Result (List Resource)
  pub get_all_instances : Option String → Result (List (List Instance))

-- `stack_name_for_vpc` of vpcutil.py, with all its arguments.
abbrev stack_name_of : List (Dict String String) → Result String
stack_name_of [] = raised index_error
stack_name_of (tags ∷ vpcs) = elim (lookup "aws:cloudformation:stack-name" tags) [
  | none ↦ raised other_error
  | some name ↦ ok name
]

unfoldable pub stack_name_for_vpc : Result (List (Dict String String)) → Result String
stack_name_for_vpc answer = answer >>= stack_name_of

-- `all_stack_names` of vpcutil.py, by the tags of each network.
unfoldable pub all_stack_names : List (Dict String String) → List String
all_stack_names [] = []
all_stack_names (tags ∷ vpcs) = elim (lookup "aws:cloudformation:stack-name" tags) [
  | none ↦ all_stack_names vpcs
  | some name ↦ name ∷ all_stack_names vpcs
]

-- `rds_subnet_group_name_for_stack_name` of vpcutil.py: each group is its network and its name.
unfoldable pub rds_subnet_group_name : Option String → List (String × String) → Option String
rds_subnet_group_name none groups = none
rds_subnet_group_name (some vpc) [] = none
rds_subnet_group_name (some vpc) ((vpc_id, name) ∷ groups) =
    let rest = rds_subnet_group_name (some vpc) groups in if vpc_id == vpc then some name else rest

-- The text, or what stands for it where there is none.
abbrev pub or_default : String → Option String → String
or_default default none = default
or_default default (some s) = if is_empty s then default else s

abbrev line_if : String → Option String → String
line_if mark none = ""
line_if mark (some s) = if is_empty s then "" else mark <> s

-- What is formatted into each of the texts.
pub record Settings : Type 0 where
  pub stack_name : String
  pub identity_line : String
  pub user : String
  pub config_file : String
  pub strict_host_check : String
  pub jump_box : String

abbrev jump_box_of : String → Option String → String
jump_box_of stack_name none = stack_name <> "-bastion"
jump_box_of stack_name (some jump_box) = jump_box

abbrev pub settings_of : Args → Settings
settings_of args = record {
  stack_name = args.stack_name;
  identity_line = line_if "IdentityFile " args.identity_file;
  user = or_default "ubuntu" args.user;
  config_file = line_if "-F " args.config_file;
  strict_host_check = or_default "ask" args.strict_host_check;
  jump_box = jump_box_of args.stack_name args.jump_box;
}

module _ (s : Settings) where
  abbrev host_lines : String → String → String
  host_lines proxy_line ip =
      proxy_line <> "    HostName " <> ip <> "\n    ForwardAgent yes\n    User " <> s.user
      <> "\n    StrictHostKeyChecking " <> s.strict_host_check <> "\n    " <> s.identity_line
      <> "\n    "

  abbrev bastion_config : String → String
  bastion_config ip = "Host " <> s.jump_box <> "\n" <> host_lines "" ip

  abbrev named_config : String → String → String → String → String
  named_config proxy_line instance_id name ip =
      "# Instance ID: " <> instance_id <> "\nHost " <> name <> "\n" <> host_lines proxy_line ip

  abbrev bastion_host_config : String → String → String → String
  bastion_host_config = named_config ""

  abbrev direct_host_config : String → String → String → String
  direct_host_config = named_config ""

  abbrev host_config : String → String → String → String
  host_config =
      named_config
        ("    ProxyCommand ssh -q " <> s.config_file <> " -W %h:%p " <> s.jump_box <> "\n")

  abbrev friendly : String → ℕ → String
  friendly logical_id instance_number =
      s.stack_name <> "-" <> logical_id <> "-" <> show_nat instance_number

  abbrev is_bastion : String → Bool
  is_bastion logical_id = logical_id == "BastionHost" || logical_id == "bastion"

  -- What is printed for an instance.
  unfoldable pub configs : Instance × String × ℕ → List String
  configs (i, logical_id, instance_number) =
      let name = friendly logical_id instance_number in
      if is_bastion logical_id
      then bastion_config i.ip_address
        ∷ bastion_host_config i.id i.private_ip_address i.ip_address
        ∷ bastion_host_config i.id name i.ip_address
        ∷ []
      else if s.jump_box == "none"
      then direct_host_config i.id i.private_ip_address i.private_ip_address
        ∷ direct_host_config i.id name i.private_ip_address
        ∷ []
      else host_config i.id i.private_ip_address i.private_ip_address
        ∷ host_config i.id name i.private_ip_address
        ∷ []

abbrev first_tag : List String → Dict String String → Option String
first_tag [] tags = none
first_tag (key ∷ keys) tags =
    let rest = first_tag keys tags in elim (lookup key tags) [ none ↦ rest | some v ↦ some v ]

abbrev pub logical_id_of : Instance → Option String
logical_id_of i =
    first_tag ("play" ∷ "role" ∷ "group" ∷ "aws:cloudformation:logical-id" ∷ []) i.tags

-- The counter of the instances, and what has been printed.
pub record Written : Type 0 where
  pub id_type_counter : Dict String ℕ
  pub printed : List String

-- `defaultdict(int)`
abbrev pub number_of : Option ℕ → ℕ
number_of none = 0
number_of (some n) = n

module _ (s : Settings) where
  abbrev pub add_counted : Instance → String → ℕ → Written → Written
  add_counted i logical_id instance_number p = record {
    id_type_counter = put logical_id (suc instance_number) p.id_type_counter;
    printed = p.printed ++ configs s (i, logical_id, instance_number);
  }

  abbrev pub add_named : Instance → Option String → Written → Written
  add_named i none p = p
  add_named i (some logical_id) p =
      add_counted i logical_id (number_of (lookup logical_id p.id_type_counter)) p

  abbrev pub add_instances : List Instance → Written → Written
  add_instances [] p = p
  add_instances (i ∷ instances) p = add_instances instances (add_named i (logical_id_of i) p)

  abbrev pub add_reservations : List (List Instance) → Written → Written
  add_reservations [] p = p
  add_reservations (instances ∷ reservations) p =
      add_reservations reservations (add_instances instances p)

abbrev pub nothing_printed : Written
nothing_printed = record { id_type_counter = []; printed = [] }

abbrev pub write_configs : Aws → Args → Result (List String)
write_configs aws args = aws.list_stack_resources args.stack_name >>= λ resources.
    aws.get_all_instances (vpc_for_stack_name resources) >>= λ reservations.
    ok (add_reservations (settings_of args) reservations nothing_printed).printed

-- `stack_name_for_vpc` is called with one of its three arguments, which is a `TypeError`.
unfoldable pub ssh_config : Aws → Args → Result (List String)
ssh_config aws args =
    if args.vpc
    then raised type_error
    else if args.stack_name_given
    then write_configs aws args
    else raised other_error

unfoldable pub dispatch : Aws → Args → Result (List String)
dispatch aws args = if args.ssh_config then ssh_config aws args else ok []
