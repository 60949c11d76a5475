-- ===== src/Supervisor/Enable.antt =====
-- How pre_supervisor_checks.py tags the volumes, checks the migrations and enables the services.
use Prim.Native.String.{◌++◌ as ◌<>◌}
use configuration.Base.{
  has_part, ℕ, suc, Bool, Option, none, some, List, [], ◌∷◌, ◌++◌, String, string_eq, nat_eq,
  if◌then◌else◌, length, Exception, Result, ok, raised, system_exit, other_error,
  aws_connection_error, Dict, ◌>>=◌ as ◌>>>=◌,
}
use configuration.Base.Script.{
  Script, from, perform, assign, when, each, except_exception, ◌>>=◌, ◌>>◌,
}
use configuration.Supervisor.Instance.{
  Instance, Edp, Waiting, max_backoff, initial_backoff, services_for_instance, edp_for_instance,
  wait_for_edp,
}
use configuration.Supervisor.Checks.{Args, Check, is_abbey, joined, check_of}

pub data Call : Type 0 where
  tag_volume : String → Dict String String → Call
  chdir : String → Call
  link : String → String → Call
  notify : String → Call

-- What the services and the operating system answer.
pub record Host : Type 0 where
  pub instance_id : String
  pub hostname : String
  -- at each time that the instances are asked for
  pub instances : ℕ → Result (List (List Instance))
  -- the volumes with the times of their creation
  pub volumes : Result (List (String × String))
  pub tag : String → Result (Unit {0})
  pub has_hipchat : Bool
  pub send : String → Result (Unit {0})
  pub exists : String → Bool
  pub chdir : String → Result (Unit {0})
  pub check_output : String → Result String
  pub link : String → String → Result (Unit {0})
  pub join : String → String → String
  pub repr : Exception → String
  pub traceback : Exception → String

module _ (args : Args) (host : Host) where
  abbrev pub tell : String → Script (List String) Call (Unit {0})
  tell message = when host.has_hipchat (perform (notify message) (host.send message))

  abbrev pub read_output : Check → Script (List String) Call (Unit {0})
  read_output c = from (host.check_output c.command) >>= λ output.
      from (if has_part c.mark output then raised other_error else ok tt)

  abbrev pub run_check : Option Check → Script (List String) Call (Unit {0})
  run_check none = from (ok tt)
  run_check (some c) =
      when (host.exists c.code_dir)
        (perform (chdir c.code_dir) (host.chdir c.code_dir) >> read_output c)

  unfoldable pub check_migrations : String → Script (List String) Call (Unit {0})
  check_migrations service = run_check (check_of args service)

  abbrev pub available_file : String → String
  available_file service = host.join args.available (service <> ".conf")

  abbrev pub link_location : String → String
  link_location service = host.join args.enabled (service <> ".conf")

  unfoldable pub link_service : String → Script (List String) Call (Unit {0})
  link_service service =
      if host.exists (available_file service)
      then (perform (link (available_file service) (link_location service))
            (host.link (available_file service) (link_location service))
          >> assign (λ report. report ++ ("Enabling service: " <> service) ∷ []))
      else from (raised other_error)

  abbrev pub enable_service : String → Script (List String) Call (Unit {0})
  enable_service service = check_migrations service >> link_service service

  -- One turn of the loop over the generator.
  unfoldable pub enable_next : Result String → Script (List String) Call (Unit {0})
  enable_next yielded = from yielded >>= enable_service

  abbrev pub services_now : Result (List (List Instance)) → Result (List (Result String))
  services_now answer =
      answer >>>= λ reservations. ok (services_for_instance host.instance_id reservations)

  -- The body of the last `try`.
  unfoldable pub enable_services : ℕ → Script (List String) Call (Unit {0})
  enable_services n = from (services_now (host.instances n)) >>= each enable_next

  abbrev pub error_text : String → Exception → String
  error_text prefix e = prefix <> ": ERROR : " <> host.repr e

  abbrev pub tell_traceback : Exception → Script (List String) Call (Unit {0})
  tell_traceback aws_connection_error = tell (host.traceback aws_connection_error)
  tell_traceback e = from (ok tt)

  -- Both handlers: the error goes on after it was told.
  unfoldable pub report_failure : String → Exception → Script (List String) Call (Unit {0})
  report_failure prefix e = tell (error_text prefix e) >> tell_traceback e >> from (raised e)

  abbrev pub tell_report : String → Script (List String) Call (Unit {0})
  tell_report prefix report = tell (prefix <> ": " <> joined report) report

  abbrev pub volume_tags : Edp → String → Dict String String
  volume_tags (environment, deployment, play) create_time =
      ("hostname", host.hostname)
      ∷ ("environment", environment)
      ∷ ("deployment", deployment)
      ∷ ("cluster", play)
      ∷ ("instance-id", host.instance_id)
      ∷ ("created", create_time)
      ∷ []

  abbrev pub tag_one : Edp → String × String → Script (List String) Call (Unit {0})
  tag_one edp (volume, create_time) =
      perform (tag_volume volume (volume_tags edp create_time)) (host.tag volume)

  unfoldable pub tag_volumes : Edp → Script (List String) Call (Unit {0})
  tag_volumes edp = except_exception (from host.volumes >>= each (tag_one edp)) (λ e.
      tell ("Failed to tag volumes associated with " <> host.instance_id <> ": " <> host.repr e))

  abbrev pub prefix_of : Edp → String
  prefix_of (environment, deployment, play) =
      environment <> "-" <> deployment <> "-" <> play <> "-" <> host.instance_id

  -- What follows once the tags are known; `n` is how often the instances were asked for.
  unfoldable pub start_services : ℕ → Edp → Script (List String) Call (Unit {0})
  start_services n edp = do
    tag_volumes edp
    except_exception (enable_services n) (report_failure (prefix_of edp))
    tell_report (prefix_of edp)

  abbrev pub with_edp : Option Waiting → Script (List String) Call (Unit {0})
  with_edp none = from (raised other_error)
  with_edp (some (raised e, sleeps)) = from (raised e)
  with_edp (some (ok none, sleeps)) =
      tell (host.instance_id <> " : Unable to retrieve environment, deployment, or play tag.")
      >> from (raised (system_exit 0))
  with_edp (some (ok (some edp), sleeps)) = start_services (suc (suc (length sleeps))) edp

  abbrev pub waited : Option Waiting
  waited =
      wait_for_edp (λ n. edp_for_instance host.instance_id (host.instances (suc n)))
        (suc max_backoff) max_backoff initial_backoff 0

  unfoldable pub main : Script (List String) Call (Unit {0})
  main = from (host.instances 0 >>>= is_abbey) >>= λ abbey.
      if abbey then from (raised (system_exit 1)) else with_edp waited
