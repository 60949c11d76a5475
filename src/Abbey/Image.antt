-- ===== src/Abbey/Image.antt =====
-- `create_ami` of util/vpc-tools/abbey.py, with the data that all of the script's functions share.
-- What boto answers is a parameter, by the number of the attempt where the script asks repeatedly;
-- the calls that change something are recorded in order. Sleeping and printing are left out.
pub mod Available
use Prim.Native.String.{◌++◌ as ◌<>◌}
use text.Mathlib.Text.{starts_with}
use configuration.Base.{
  ℕ, Bool, true, false, Option, List, [], ◌∷◌, select, String, ◌==◌, string_eq, if◌then◌else◌,
  Result, ok, raised, other_error,
}
use configuration.Base.Script.{Script, from, perform, except_ec2, wait_until, ◌>>=◌, ◌>>◌}

-- The options of the command line that are used here. An option that is not given and has no
-- default is the empty text, which Python takes for false as well.
pub record Args : Type 0 where
  pub environment : String
  pub deployment : String
  pub play : String
  pub stack_name : String
  pub identity : String
  pub configuration_version : String
  pub configuration_secure_repo : String
  pub configuration_secure_version : String
  pub cache_id : String
  pub base_ami : String
  pub callback_url : String
  pub hipchat_api_token : String
  pub hipchat_room_id : String
  pub keypair : String
  pub instance_type : String
  pub role_name : String
  pub root_vol_size : String
  pub verbose : Bool
  pub msg_delay : ℕ
  pub blessed : Bool
  pub noop : Bool
  pub no_cleanup : Bool

pub record Tag : Type 0 where
  pub name : String
  pub value : String

-- The arguments of `run_instances`; the text of the user data is left out.
pub record InstanceArgs : Type 0 where
  pub security_group_id : String
  pub subnet_id : String
  pub key_name : String
  pub image_id : String
  pub instance_type : String
  pub instance_profile_name : String
  pub root_volume_size : String

pub data Call : Type 0 where
  create_queue : String → Call
  run_instances : InstanceArgs → Call
  create_image : String → String → Call
  add_tag : String → Tag → Call
  delete_queue : String → Call
  terminate_instance : String → Call
  get_url : String → Call
  message_room : String → Call

-- The global variables that the clean-up reads.
pub record Globals : Type 0 where
  pub sqs_queue : Option String
  pub instance_id : Option String
  pub error_in_abbey_run : Bool

abbrev pub ami_timeout : ℕ
ami_timeout = 2700

-- What boto answers on images.
pub record Images : Type 0 where
  pub create : String → String → Result String
  -- the state of the image at an attempt
  pub state : ℕ → String → Result String
  pub tag : ℕ → Tag → Result (Unit {0})
  pub tags_of : ℕ → String → Result (List Tag)

abbrev pub tag_named : String → String → Tag
tag_named name value = record { name = name; value = value }

-- The tags that do not depend on the instance, in their order.
unfoldable pub fixed_tags : Args → List Tag
fixed_tags args =
    tag_named "environment" args.environment
    ∷ tag_named "deployment" args.deployment
    ∷ tag_named "cluster" args.play
    ∷ tag_named "play" args.play
    ∷ tag_named "version:configuration"
        ("http://github.com/edx/configuration" <> " " <> args.configuration_version)
    ∷ tag_named "version:configuration_secure"
        (args.configuration_secure_repo <> " " <> args.configuration_secure_version)
    ∷ tag_named "cache_id" args.cache_id
    ∷ []

abbrev pub is_version : Tag → Bool
is_version t = starts_with t.name "version:"

abbrev pub retry_if_missing : String → Script Globals Call Bool
retry_if_missing code =
    from (if code == "InvalidAMIID.NotFound" then ok false else raised other_error)

module _ (images : Images) where
  abbrev pub add_tags : ℕ → String → List Tag → Script Globals Call (Unit {0})
  add_tags n image_id [] = from (ok tt)
  add_tags n image_id (t ∷ tags) =
      perform (add_tag image_id t) (images.tag n t) >> add_tags n image_id tags

  unfoldable pub tag_image : Args → String → String → ℕ → Script Globals Call (Unit {0})
  tag_image args instance_id image_id n = do
    add_tags n image_id (fixed_tags args)
    tags ← from (images.tags_of n instance_id)
    add_tags n image_id (select is_version tags)

  -- One round of the loop: whether it breaks.
  unfoldable pub try_image : Args → String → String → ℕ → Script Globals Call Bool
  try_image args instance_id image_id n =
      except_ec2
        (from (images.state n image_id) >>= λ state.
          if state == "available"
          then tag_image args instance_id image_id n >> from (ok true)
          else from (ok false))
        retry_if_missing

  unfoldable pub create_ami : Args → String → String → Script Globals Call String
  create_ami args instance_id name = do
    image_id ← perform (create_image instance_id name) (images.create instance_id name)
    wait_until (try_image args instance_id image_id) other_error ami_timeout 0
    from (ok image_id)
