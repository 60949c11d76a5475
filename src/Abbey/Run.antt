-- ===== src/Abbey/Run.antt =====
-- What util/vpc-tools/abbey.py does when it is run: the arguments of the instance, the messages, and
-- the main block with its clean-up. The options are parsed and the connections are made before.
pub mod Kept
pub mod Made
pub mod Cleanup
mod Tests
use Prim.Native.String.{◌++◌ as ◌<>◌}
use configuration.Base.{
  ℕ, Bool, true, false, not, ◌&&◌, Option, none, some, List, [], ◌∷◌, String, ◌==◌, string_eq,
  if◌then◌else◌, Exception, Result, ok, raised, system_exit, other_error, length, nat_eq,
  ◌>>=◌ as ◌>>>=◌, ◌>>◌ as ◌>>>◌,
}
use configuration.Base.Script.{
  Script, from, perform, assign, when, except_exception, finally, ◌>>=◌, ◌>>◌,
}
use configuration.Abbey.Image.{
  Args, InstanceArgs, Call, delete_queue, terminate_instance, get_url, message_room, Globals,
}
use configuration.Abbey.Launch.{Services, Clock, first_of, launch_and_configure}

-- The filters of a query, by name and value.
abbrev pub Filters : Type 0
Filters = List (String × String)

pub record Subnet : Type 0 where
  pub id : String
  pub vpc_id : String

-- What boto and the file system answer before the instance is launched.
pub record Lookups : Type 0 where
  pub subnets : Filters → Result (List Subnet)
  pub security_groups : Filters → Result (List String)
  pub images : Filters → Result (List String)
  pub read : String → Result String

-- What the services answer to messages and to the clean-up, and `repr` of an exception.
pub record Messages : Type 0 where
  pub get : String → Result (Unit {0})
  pub import_hipchat : Result (Unit {0})
  pub message_room : String → Result (Unit {0})
  pub delete_queue : String → Result (Unit {0})
  pub terminate : String → Result (Unit {0})
  pub repr : Exception → String

abbrev pub is_given : String → Bool
is_given text = not (text == "")

-- A second query where the first one finds nothing.
abbrev pub or_else {ℓ} : {A : Type ℓ} → List A → Result (List A) → Result (List A)
or_else [] second = second
or_else (x ∷ xs) second = ok (x ∷ xs)

abbrev pub tag_filters : Args → Filters
tag_filters args =
    ("tag:play", args.play)
    ∷ ("tag:environment", args.environment)
    ∷ ("tag:deployment", args.deployment)
    ∷ []

module _ (args : Args) (lookups : Lookups) where
  unfoldable pub get_instance_sec_group : String → Result String
  get_instance_sec_group vpc_id =
      lookups.security_groups (("vpc_id", vpc_id) ∷ ("tag:play", args.play) ∷ []) >>>= λ found.
      or_else found (lookups.security_groups (tag_filters args)) >>>= λ grp_details.
      first_of grp_details

  abbrev pub only_one : List String → Result String
  only_one (image ∷ []) = ok image
  only_one images = raised other_error

  unfoldable pub get_blessed_ami : Result String
  get_blessed_ami =
      lookups.images (
        ("tag:environment", args.environment)
        ∷ ("tag:deployment", args.deployment)
        ∷ ("tag:play", args.play)
        ∷ ("tag:blessed", "True")
        ∷ [])
      >>>= only_one

  abbrev pub first_subnet : List Subnet → Result Subnet
  first_subnet [] = raised (system_exit 1)
  first_subnet (subnet ∷ more) = ok subnet

  abbrev pub read_identity : Result String
  read_identity = if is_given args.identity then lookups.read args.identity else ok "dummy"

  abbrev pub stack_of : String
  stack_of =
      if is_given args.stack_name
      then args.stack_name
      else args.environment <> "-" <> args.deployment

  unfoldable pub create_instance_args : String → Result InstanceArgs
  create_instance_args base_ami =
      lookups.subnets
        (("tag:aws:cloudformation:stack-name", stack_of) ∷ ("tag:play", args.play) ∷ [])
      >>>= λ found.
          or_else found (lookups.subnets (tag_filters args)) >>>= first_subnet >>>= λ subnet.
          get_instance_sec_group subnet.vpc_id >>>= λ security_group_id.
          read_identity >>>= λ identity_contents. ok (record {
            security_group_id = security_group_id;
            subnet_id = subnet.id;
            key_name = args.keypair;
            image_id = base_ami;
            instance_type = args.instance_type;
            instance_profile_name = args.role_name;
            root_volume_size = args.root_vol_size;
          })

module _ (args : Args) (messages : Messages) where
  unfoldable pub send_hipchat_message : String → Script Globals Call (Unit {0})
  send_hipchat_message message =
      if is_given args.callback_url
      then (let url = args.callback_url <> "/" <> message in
          perform (get_url url) (messages.get url))
      else when (is_given args.hipchat_api_token && is_given args.hipchat_room_id) (
          from messages.import_hipchat
          >> except_exception (perform (message_room message) (messages.message_room message))
              (λ e. from (ok tt)))

  abbrev pub for_build : String
  for_build = args.environment <> " " <> args.deployment <> " " <> args.play

  abbrev pub finished_message : String → String
  finished_message image_id = "Finished baking AMI " <> image_id <> " for " <> for_build <> "."

  abbrev pub error_message : Exception → String
  error_message e =
      "An error occurred building AMI for "
      <> for_build
      <> ".  The Exception was "
      <> messages.repr e

  -- The clause `except Exception as e`.
  unfoldable pub report_error : Exception → Script Globals Call (Unit {0})
  report_error e = do
    send_hipchat_message (error_message e)
    assign (λ g. record g { error_in_abbey_run = true })

  abbrev pub remove_queue : Option String → Script Globals Call (Unit {0})
  remove_queue none = from (ok tt)
  remove_queue (some queue) = perform (delete_queue queue) (messages.delete_queue queue)

  abbrev pub terminate_instances : Option String → Script Globals Call (Unit {0})
  terminate_instances none = from (ok tt)
  terminate_instances (some i) = perform (terminate_instance i) (messages.terminate i)

  abbrev pub remove_all : Globals → Script Globals Call (Unit {0})
  remove_all g = remove_queue g.sqs_queue >> terminate_instances g.instance_id

  abbrev pub exit_if_error : Globals → Script Globals Call (Unit {0})
  exit_if_error g = from (if g.error_in_abbey_run then raised (system_exit 1) else ok tt)

  -- The clause `finally`.
  unfoldable pub clean_up : Script Globals Call (Unit {0})
  clean_up g = (when (not args.no_cleanup && not args.noop) (remove_all g) >> exit_if_error g) g

abbrev pub start_globals : Globals
start_globals = record { sqs_queue = none; instance_id = none; error_in_abbey_run = false }

module _ (args : Args) (lookups : Lookups) (services : Services) (clock : Clock)
    (messages : Messages) where
  abbrev pub choose_ami : Result String
  choose_ami = if args.blessed then get_blessed_ami args lookups else ok args.base_ami

  abbrev pub launch_and_tell : String → InstanceArgs → Script Globals Call (Unit {0})
  launch_and_tell run_id ec2_args = do
    (run_summary, ami) ← launch_and_configure args services clock run_id ec2_args
    send_hipchat_message args messages (finished_message args messages ami)

  -- The body of `try`.
  unfoldable pub build : String → String → Script Globals Call (Unit {0})
  build run_id base_ami = do
    ec2_args ← from (create_instance_args args lookups base_ami)
    when (not args.noop) (launch_and_tell run_id ec2_args)

  abbrev pub try_main : String → String → Script Globals Call (Unit {0})
  try_main run_id base_ami =
      finally (except_exception (build run_id base_ami) (report_error args messages))
        (clean_up args messages)

  unfoldable pub main : String → Script Globals Call (Unit {0})
  main run_id = from choose_ami >>= try_main run_id
