-- ===== src/Lifecycle/Safety.antt =====
-- No call is made that is not due for a message of the batch.
use configuration.Base.{
  ◌≡◌, ◌≢◌, refl, ◌∙◌, inl, inr, Bool, true, false, some, List, [], String, arith, ◌==◌, eq_iff,
  string_eq, Dict, lookup, Result, ok, raised, missing_host, Bool-cases, Option-cases, All-IsIn,
  All-imp, IsIn, if◌then◌else◌,
}
use configuration.Base.Traced.{
  Traced, Only, from, ◌>>=◌, ◌>>◌, Only->>=, Only-except_missing_host, Only-traced_each,
}
use configuration.Lifecycle.Handler.{
  Message, Body, Call, Aws, LifecycleHandler, readable, unreadable, without_message, item,
  is_termination, verify_ok_to_retire, run_subprocess_command, heartbeat_command, continue_command,
  record_lifecycle_action_heartbeat, continue_lifecycle, delete_sqs_message, retire_or_wait,
  process_termination, process_other, process_message, process_lifecycle_messages, read_message,
}
use configuration.Lifecycle.Justified.{
  Terminates, IsMissing, JustifiedBy, waits, retires, retired, gone, notified, verify-IsMarked,
  verify-IsMissing,
}
use configuration.Lifecycle.Calls.{Only-run, Only-delete, ran, run_no_host, delete_no_host}

item_found :
    (key value : String) (d : Dict String String)
    → item key d ≡ ok value
    → lookup key d ≡ some value
unfolding item
item_found key value d h = elim (Option-cases (lookup key d)) [
  | inl absent ↦ absurd (ground arith)
  | inr (v, e) ↦ ground arith
]

read_found : (b : Body) (d : Dict String String) → read_message b ≡ ok d → b ≡ readable d
unfolding read_message
read_found unreadable d h = absurd (cc h)
read_found without_message d h = absurd (cc h)
read_found (readable e) d h = ground arith

module _ (aws : Aws) (self : LifecycleHandler) where
  Only-decided :
      (m : Message) (instance_id asg token : String) (mark : Bool)
      → Terminates m instance_id asg token
      → verify_ok_to_retire aws self instance_id ≡ ok mark
      → Only (JustifiedBy aws self m) (
          if mark
          then continue_lifecycle aws self asg token >> delete_sqs_message aws self m
          else record_lifecycle_action_heartbeat aws self asg token)
  unfolding continue_lifecycle record_lifecycle_action_heartbeat
  Only-decided m instance_id asg token true t v =
      let marked = verify-IsMarked aws self instance_id true v in
      Only->>= (JustifiedBy aws self m)
        (run_subprocess_command aws self (continue_command aws self asg token)) _
        (Only-run aws self (JustifiedBy aws self m) (continue_command aws self asg token)
          (λ live. retires live t marked))
        (λ u done. Only-delete aws self (JustifiedBy aws self m) m (λ live.
          retired live t marked (ran aws self (continue_command aws self asg token) live done)))
  Only-decided m instance_id asg token false t v =
      Only-run aws self (JustifiedBy aws self m) (heartbeat_command aws self asg token)
        (λ live. waits live t (verify-IsMarked aws self instance_id false v))

  Only-retire_or_wait :
      (m : Message) (instance_id asg token : String)
      → Terminates m instance_id asg token
      → Only (JustifiedBy aws self m) (retire_or_wait aws self instance_id asg token m)
  unfolding retire_or_wait
  Only-retire_or_wait m instance_id asg token t =
      Only->>= (JustifiedBy aws self m) (from (verify_ok_to_retire aws self instance_id)) _ tt
        (λ mark v. Only-decided m instance_id asg token mark t v)

  step_no_host :
      (step rest : Traced Call (Unit {0}))
      → step.0 ≢ raised missing_host
      → rest.0 ≢ raised missing_host
      → (step >> rest).0 ≢ raised missing_host
  step_no_host (raised x, calls) rest a b h = a h
  step_no_host (ok u, calls) rest a b h = b h

  decided_no_host :
      (m : Message) (asg token : String) (mark : Bool)
      → (if mark
          then continue_lifecycle aws self asg token >> delete_sqs_message aws self m
          else record_lifecycle_action_heartbeat aws self asg token).0
        ≢ raised missing_host
  unfolding continue_lifecycle record_lifecycle_action_heartbeat
  decided_no_host m asg token true =
      step_no_host (run_subprocess_command aws self (continue_command aws self asg token))
        (delete_sqs_message aws self m) (run_no_host aws self (continue_command aws self asg token))
        (delete_no_host aws self m)
  decided_no_host m asg token false = run_no_host aws self (heartbeat_command aws self asg token)

  from_no_host :
      (verdict : Result Bool) (next : Bool → Traced Call (Unit {0}))
      → ((mark : Bool) → (next mark).0 ≢ raised missing_host)
      → (from verdict >>= next).0 ≡ raised missing_host
      → verdict ≡ raised missing_host
  from_no_host (raised x) next differs h = ground arith
  from_no_host (ok mark) next differs h = absurd (differs mark h)

  IsMissing-retire_or_wait :
      (m : Message) (instance_id asg token : String)
      → (retire_or_wait aws self instance_id asg token m).0 ≡ raised missing_host
      → IsMissing aws instance_id
  unfolding retire_or_wait
  IsMissing-retire_or_wait m instance_id asg token h =
      verify-IsMissing aws self instance_id
        (from_no_host (verify_ok_to_retire aws self instance_id) _ (decided_no_host m asg token) h)

  Only-process_termination :
      (m : Message) (as_message : Dict String String)
      → m.body ≡ readable as_message
      → is_termination as_message ≡ true
      → Only (JustifiedBy aws self m) (process_termination aws self as_message m)
  unfolding process_termination
  Only-process_termination m as_message body transition =
      Only->>= (JustifiedBy aws self m) (from (item "EC2InstanceId" as_message)) _ tt
        (λ instance_id id.
          Only->>= (JustifiedBy aws self m) (from (item "AutoScalingGroupName" as_message)) _ tt
            (λ asg group.
              Only->>= (JustifiedBy aws self m) (from (item "LifecycleActionToken" as_message)) _ tt
                (λ token action.
                  let t : Terminates m instance_id asg token = record {
                    as_message = as_message;
                    body = body;
                    transition = transition;
                    id = item_found "EC2InstanceId" instance_id as_message id;
                    group = item_found "AutoScalingGroupName" asg as_message group;
                    action = item_found "LifecycleActionToken" token as_message action;
                  } in
                  Only-except_missing_host (JustifiedBy aws self m)
                    (retire_or_wait aws self instance_id asg token m)
                    (delete_sqs_message aws self m) (Only-retire_or_wait m instance_id asg token t)
                    (λ missing. Only-delete aws self (JustifiedBy aws self m) m (λ live.
                      gone live t (IsMissing-retire_or_wait m instance_id asg token missing))))))

  Only-notification :
      (m : Message) (as_message : Dict String String) (event : String)
      (other : Traced Call (Unit {0}))
      → m.body ≡ readable as_message
      → is_termination as_message ≡ false
      → lookup "Event" as_message ≡ some event
      → other.1 ≡ []
      → Only (JustifiedBy aws self m) (
          if event == "autoscaling:TEST_NOTIFICATION" then delete_sqs_message aws self m else other)
  Only-notification m as_message event other body transition e none_made =
      elim (Bool-cases (event == "autoscaling:TEST_NOTIFICATION")) [
        | inl test ↦
            let same = (eq_iff event "autoscaling:TEST_NOTIFICATION").0 test in
            rw test (
              Only-delete aws self (JustifiedBy aws self m) m (λ live. notified live (record {
                as_message = as_message;
                body = body;
                transition = transition;
                event = e ∙ rw same refl;
              })))
        | inr unknown ↦ rw (unknown, none_made) tt
      ]

  no_calls :
      (r : Result String) (x : Result (Unit {0})) → (from {C = Call} r >>= λ _. from x).1 ≡ []
  no_calls (raised y) x = refl
  no_calls (ok a) x = refl

  Only-process_other :
      (m : Message) (as_message : Dict String String)
      → m.body ≡ readable as_message
      → is_termination as_message ≡ false
      → Only (JustifiedBy aws self m) (process_other aws self as_message m)
  unfolding process_other
  Only-process_other m as_message body transition =
      Only->>= (JustifiedBy aws self m) (from (item "Event" as_message)) _ tt (λ event e.
        Only-notification m as_message event _ body transition
          (item_found "Event" event as_message e) (no_calls (item "MessageId" as_message) _))

  Only-process_message : (m : Message) → Only (JustifiedBy aws self m) (process_message aws self m)
  unfolding process_message
  Only-process_message m =
      Only->>= (JustifiedBy aws self m) (from (read_message m.body)) _ tt (λ as_message r.
        let body = read_found m.body as_message r in
        elim (Bool-cases (is_termination as_message)) [
          | inl transition ↦ rw transition (Only-process_termination m as_message body transition)
          | inr other ↦ rw other (Only-process_other m as_message body other)
        ])

  pub process_lifecycle_messages_sound :
      (messages : List Message) (c : Call)
      → IsIn c (process_lifecycle_messages aws self messages).1
      → (m : Message) × IsIn m messages × JustifiedBy aws self m c
  unfolding process_lifecycle_messages
  process_lifecycle_messages_sound messages c i =
      All-IsIn (λ d. (m : Message) × IsIn m messages × JustifiedBy aws self m d)
        (Only-traced_each (λ d. (m : Message) × IsIn m messages × JustifiedBy aws self m d)
          (process_message aws self) messages
          (λ m here.
            All-imp (JustifiedBy aws self m) _ (process_message aws self m).1 (λ d j. (m, here, j))
              (Only-process_message m)))
        i
