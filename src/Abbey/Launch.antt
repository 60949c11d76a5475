-- ===== src/Abbey/Launch.antt =====
-- `launch_and_configure` of util/vpc-tools/abbey.py. What boto answers is a parameter, by the number
-- of the attempt where the script asks repeatedly. The rounds of the poll are those that it goes
-- through until the user interrupts it. Times are in thousandths of a second.
use configuration.Base.{
  ℕ, ◌+◌, ◌-◌, Bool, false, Option, none, some, List, [], ◌∷◌, ◌++◌, String, ◌==◌, string_eq, ltb,
  if◌then◌else◌, Result, ok, raised, ec2_response_error, index_error, other_error,
  keyboard_interrupt,
}
use configuration.Base.Script.{Script, from, perform, assign, except_ec2, wait_until, ◌>>=◌, ◌>>◌}
use configuration.Abbey.Poll.{Outcome, polling, finished, Round, TaskReport, start_state, poll}
use configuration.Abbey.Image.{
  Args, InstanceArgs, Call, create_queue, run_instances, Globals, Images, create_ami,
}

-- What boto answers on queues and instances.
pub record Services : Type 0 where
  pub images : Images
  pub create : String → Result String
  -- the identifiers of the instances that a call starts
  pub run : InstanceArgs → Result (List String)
  -- the states of the instances of each reservation
  pub reservations : ℕ → String → Result (List (List String))
  pub system_status : ℕ → String → Result (List String)
  pub rounds : List Round

-- What `time.time()` says at the places where the script asks for it.
pub record Clock : Type 0 where
  pub start_time : ℕ
  pub status_start : ℕ
  pub running : ℕ
  pub system_start : ℕ
  pub status_ok : ℕ
  pub ami_start : ℕ
  pub ami_done : ℕ
  pub end_time : ℕ

abbrev pub ec2_run_timeout : ℕ
ec2_run_timeout = 180

abbrev pub ec2_status_timeout : ℕ
ec2_status_timeout = 300

-- `xs[0]`
abbrev pub first_of {ℓ} : {A : Type ℓ} → List A → Result A
first_of [] = raised index_error
first_of (x ∷ xs) = ok x

abbrev pub retry_if_unknown : String → Script Globals Call (Option (List (List String)))
retry_if_unknown code =
    from
      (if code == "InvalidInstanceID.NotFound" then ok none else raised (ec2_response_error code))

abbrev pub is_running : Option (List (List String)) → Script Globals Call Bool
is_running none = from (ok false)
is_running (some reservations) = do
  instances ← from (first_of reservations)
  state ← from (first_of instances)
  from (ok (state == "running"))

abbrev pub is_ok : List String → Bool
is_ok [] = false
is_ok (status ∷ more) = status == "ok"

-- What `poll_sqs_ansible` comes to; a poll that goes on ends when the user interrupts it.
abbrev pub poll_answer : Result Outcome → Result (ℕ × List TaskReport)
poll_answer (raised e) = raised e
poll_answer (ok (polling s)) = raised keyboard_interrupt
poll_answer (ok (finished ts report)) = ok (ts, report)

abbrev pub all_stages : List (String × ℕ) → ℕ
all_stages [] = 0
all_stages (stage ∷ stages) = stage.1 + all_stages stages

abbrev pub stages : Clock → ℕ → List (String × ℕ)
stages clock ansible_delta =
    ("EC2 Launch", clock.running - clock.status_start)
    ∷ ("EC2 Status Checks", clock.status_ok - clock.system_start)
    ∷ ("Ansible run", ansible_delta)
    ∷ ("AMI Build", clock.ami_done - clock.ami_start)
    ∷ []

-- The entry "Other", for the time that is in no stage.
abbrev pub other_entry : ℕ → ℕ → List (String × ℕ)
other_entry total_time staged =
    if ltb staged total_time then ("Other", total_time - staged) ∷ [] else []

-- `run_summary` at the end.
unfoldable pub run_summary : Clock → ℕ → List (String × ℕ)
run_summary clock ansible_delta =
    let total_time = clock.end_time - clock.start_time in
    let done = stages clock ansible_delta in
    done ++ other_entry total_time (all_stages done) ++ ("Total", total_time) ∷ []

module _ (args : Args) (services : Services) (clock : Clock) where
  abbrev pub check_instance : String → ℕ → Script Globals Call Bool
  check_instance instance_id n =
      except_ec2 (from (services.reservations n instance_id) >>= λ found. from (ok (some found)))
        retry_if_unknown
      >>= is_running

  abbrev pub check_status : String → ℕ → Script Globals Call Bool
  check_status instance_id n =
      from (services.system_status n instance_id) >>= λ status. from (ok (is_ok status))

  abbrev pub wait_for_running : String → Script Globals Call (Unit {0})
  wait_for_running instance_id =
      wait_until (check_instance instance_id) other_error ec2_run_timeout 0

  abbrev pub wait_for_status : String → Script Globals Call (Unit {0})
  wait_for_status instance_id =
      wait_until (check_status instance_id) other_error ec2_status_timeout 0

  abbrev pub poll_sqs_ansible : Script Globals Call (ℕ × List TaskReport)
  poll_sqs_ansible =
      from (poll_answer (poll args.verbose args.msg_delay services.rounds start_state))

  -- All that follows once the instance is known.
  unfoldable pub configure : String → String → Script Globals Call (List (String × ℕ) × String)
  configure run_id instance_id = do
    wait_for_running instance_id
    wait_for_status instance_id
    (ansible_delta, task_report) ← poll_sqs_ansible
    ami ← create_ami services.images args instance_id run_id
    from (ok (run_summary clock ansible_delta, ami))

  abbrev pub make_queue : String → Script Globals Call (Unit {0})
  make_queue run_id = do
    queue ← perform (create_queue run_id) (services.create run_id)
    assign (λ g. record g { sqs_queue = some queue })

  abbrev pub make_instance : InstanceArgs → Script Globals Call String
  make_instance ec2_args = do
    instances ← perform (run_instances ec2_args) (services.run ec2_args)
    instance_id ← from (first_of instances)
    assign (λ g. record g { instance_id = some instance_id })
    from (ok instance_id)

  unfoldable pub launch_and_configure :
      String → InstanceArgs → Script Globals Call (List (String × ℕ) × String)
  launch_and_configure run_id ec2_args = do
    make_queue run_id
    instance_id ← make_instance ec2_args
    configure run_id instance_id
