-- ===== src/Supervisor/Checks.antt =====
-- The checks of migrations of pre_supervisor_checks.py.
use Prim.Native.String.{◌++◌ as ◌<>◌}
use configuration.Base.{
  Bool, false, not, ◌&&◌, Option, none, some, List, [], ◌∷◌, String, ◌==◌, string_eq, nat_eq,
  if◌then◌else◌, Result, ok, raised, index_error, type_error, Dict, lookup,
}
use configuration.Supervisor.Instance.{Instance, ends_with}

-- The arguments that belong to one service.
pub record ServiceArgs : Type 0 where
  pub python : Option String
  pub env_file : Option String
  pub code_dir : Option String

pub record Args : Type 0 where
  pub available : String
  pub enabled : String
  pub edxapp : ServiceArgs
  pub xqueue : ServiceArgs
  pub ecommerce : ServiceArgs
  pub programs : ServiceArgs
  pub credentials : ServiceArgs
  pub discovery : ServiceArgs
  pub insights : ServiceArgs
  pub analytics_api : ServiceArgs

-- A command that lists the migrations, where it runs and what it prints for one that was not run.
pub record Check : Type 0 where
  pub code_dir : String
  pub command : String
  pub mark : String

abbrev pub text_of : Option String → String
text_of none = "None"
text_of (some text) = text

-- The entries of MIGRATION_COMMANDS, in their formats.
abbrev pub manage : ServiceArgs → String
manage a =
    ". "
    <> text_of a.env_file
    <> "; "
    <> text_of a.python
    <> " "
    <> text_of a.code_dir
    <> "/manage.py migrate --noinput --list"

abbrev pub manage_xqueue : ServiceArgs → String
manage_xqueue a =
    "SERVICE_VARIANT=xqueue "
    <> text_of a.python
    <> " "
    <> text_of a.code_dir
    <> "/manage.py migrate --noinput --list --settings=xqueue.aws_settings"

abbrev pub migration_commands : Dict String (ServiceArgs → String)
migration_commands =
    ("lms", λ a. "NO_EDXAPP_SUDO=1 /edx/bin/edxapp-migrate-lms --noinput --list")
    ∷ ("cms", λ a. "NO_EDXAPP_SUDO=1 /edx/bin/edxapp-migrate-cms --noinput --list")
    ∷ ("xqueue", manage_xqueue)
    ∷ ("ecommerce", manage)
    ∷ ("programs", manage)
    ∷ ("insights", manage)
    ∷ ("analytics_api", manage)
    ∷ ("credentials", manage)
    ∷ ("discovery", manage)
    ∷ []

abbrev pub is_truthy : Option String → Bool
is_truthy none = false
is_truthy (some text) = not (text == "")

abbrev pub given_check : String → Option String → Option String → Option String → Option Check
given_check command (some python) (some env_file) (some code_dir) =
    some (record { code_dir = code_dir; command = command; mark = "[ ]" })
given_check command _ _ _ = none

-- The check of a service all of whose arguments are given.
abbrev pub full_check : (ServiceArgs → String) → Option ServiceArgs → Option Check
full_check command none = none
full_check command (some a) = given_check (command a) a.python a.env_file a.code_dir

abbrev pub profile_abbey : Option String → Result Bool
profile_abbey none = raised type_error
profile_abbey (some arn) = ok (ends_with "/abbey" arn)

abbrev pub is_abbey : List (List Instance) → Result Bool
is_abbey ((i ∷ instances) ∷ reservations) = profile_abbey i.profile_arn
is_abbey reservations = raised index_error

abbrev pub joined : List String → String
joined [] = ""
joined (line ∷ []) = line
joined (line ∷ next ∷ report) = line <> " | " <> joined (next ∷ report)

module _ (args : Args) where
  -- The dictionary `services`, which has no "xqueue".
  abbrev pub services : Dict String ServiceArgs
  services =
      ("lms", args.edxapp)
      ∷ ("cms", args.edxapp)
      ∷ ("ecommerce", args.ecommerce)
      ∷ ("programs", args.programs)
      ∷ ("credentials", args.credentials)
      ∷ ("discovery", args.discovery)
      ∷ ("insights", args.insights)
      ∷ ("analytics_api", args.analytics_api)
      ∷ []

  abbrev pub check_by : String → Option (ServiceArgs → String) → Option Check
  check_by service none = none
  check_by service (some command) =
      if service == "xqueue" && is_truthy args.xqueue.code_dir
      then some (record {
        code_dir = text_of args.xqueue.code_dir;
        command = command args.xqueue;
        mark = "Migrating";
      })
      else full_check command (lookup service services)

  -- Which check is due for a service, if any.
  unfoldable pub check_of : String → Option Check
  check_of service = check_by service (lookup service migration_commands)
