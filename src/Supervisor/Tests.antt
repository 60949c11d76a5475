-- ===== src/Supervisor/Tests.antt =====
-- Runs of pre_supervisor_checks.py on an instance with two services.
use configuration.Base.{
  ℕ, ◌+◌, ◌≡◌, refl, true, none, some, [], ◌∷◌, String, Result, ok, raised, system_exit,
  keyboard_interrupt, other_error, All, ◌==◌, string_eq, nat_eq, if◌then◌else◌, Dict,
}
use Prim.Native.String.{◌++◌ as ◌<>◌}
use configuration.Supervisor.Instance.{
  Instance, Edp, split_commas, instance_services, services_for_instance, edp_for_instance,
  wait_for_edp, max_backoff, initial_backoff,
}
use configuration.Supervisor.Checks.{ServiceArgs, Args, check_of}
use configuration.Supervisor.Enable.{
  tag_volume, chdir, link, notify, Host, check_migrations, link_service, enable_next,
  enable_services, report_failure, tag_volumes, start_services, main,
}
use configuration.Supervisor.Migrated.{IsDue, main-IsDue}
use configuration.Supervisor.Backoff.{wait_for_edp-attempts}

program : Unit {0}
unfolding instance_services services_for_instance edp_for_instance wait_for_edp check_of
    check_migrations link_service enable_next enable_services report_failure tag_volumes
    start_services main
program = tt

run_split : split_commas "lms,,cms" ≡ "lms" ∷ "" ∷ "cms" ∷ []
run_split = refl

abbrev absent : ServiceArgs
absent = record { python = none; env_file = none; code_dir = none }

abbrev args : Args
args = record {
  available = "/a";
  enabled = "/e";
  edxapp = record { python = some "py"; env_file = some "env"; code_dir = some "/edx" };
  xqueue = absent;
  ecommerce = absent;
  programs = absent;
  credentials = absent;
  discovery = absent;
  insights = absent;
  analytics_api = absent;
}

abbrev tagged : Instance
tagged = record {
  id = "i-1";
  profile_arn = some "arn:web";
  tags =
      ("environment", "stage")
      ∷ ("deployment", "edx")
      ∷ ("play", "app")
      ∷ ("services", "lms,forum")
      ∷ [];
}

-- The tags are there at the third attempt.
abbrev host : Host
host = record {
  instance_id = "i-1";
  hostname = "h";
  instances = λ n. ok (((if n == 1 then record tagged { tags = [] } else tagged) ∷ []) ∷ []);
  volumes = ok (("vol-1", "t") ∷ []);
  tag = λ volume. ok tt;
  has_hipchat = true;
  send = λ message. ok tt;
  exists = λ path. true;
  chdir = λ path. ok tt;
  check_output = λ command. ok "[X] 0001";
  link = λ file location. ok tt;
  join = λ a b. a <> "/" <> b;
  repr = λ e. "error";
  traceback = λ e. "trace";
}

abbrev tags : Dict String String
tags =
    ("hostname", "h")
    ∷ ("environment", "stage")
    ∷ ("deployment", "edx")
    ∷ ("cluster", "app")
    ∷ ("instance-id", "i-1")
    ∷ ("created", "t")
    ∷ []

run_main : main args host [] ≡ (
  ok tt,
  "Enabling service: lms" ∷ "Enabling service: forum" ∷ [],
  tag_volume "vol-1" tags
      ∷ chdir "/edx"
      ∷ link "/a/lms.conf" "/e/lms.conf"
      ∷ link "/a/forum.conf" "/e/forum.conf"
      ∷ notify "stage-edx-app-i-1: Enabling service: lms | Enabling service: forum"
      ∷ [],
)
unfolding program
run_main = refl

run_unmigrated : main args (record host { check_output = λ command. ok "[ ] 0002" }) [] ≡ (
  raised other_error,
  [],
  tag_volume "vol-1" tags ∷ chdir "/edx" ∷ notify "stage-edx-app-i-1: ERROR : error" ∷ [],
)
unfolding program
run_unmigrated = refl

abbrev untagged : Host
untagged = record host { instances = λ n. ok ((record tagged { tags = [] } ∷ []) ∷ []) }

run_untagged : main args untagged [] ≡ (
  raised (system_exit 0),
  [],
  notify "i-1 : Unable to retrieve environment, deployment, or play tag." ∷ [],
)
unfolding program
run_untagged = refl

main-IsDue_example : All (IsDue args host) (main args host []).2
main-IsDue_example = main-IsDue args host []

abbrev failing : ℕ → Result Edp
failing n = if n == 6 then ok ("stage", "edx", "app") else raised other_error

run_interrupted :
    wait_for_edp
      (λ n. if n == 1 then raised keyboard_interrupt else raised other_error)
      9
      max_backoff
      initial_backoff
      0
    ≡ some (raised keyboard_interrupt, 1 ∷ [])
unfolding program
run_interrupted = refl

wait_for_edp-attempts_example :
    wait_for_edp failing (8 + 1) max_backoff initial_backoff 0
    ≡ some (ok (some ("stage", "edx", "app")), 1 ∷ 2 ∷ 4 ∷ 8 ∷ 16 ∷ 32 ∷ [])
wait_for_edp-attempts_example = wait_for_edp-attempts failing 1
