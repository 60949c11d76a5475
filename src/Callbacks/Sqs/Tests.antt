-- ===== src/Callbacks/Sqs/Tests.antt =====
-- Runs of playbooks/callback_plugins/sqs.py, and its theorems at a run of two playbooks.
use configuration.Base.{
  ℕ, ◌≤◌, length, ◌≡◌, refl, true, false, Option, none, some, List, [], ◌∷◌, String, ok, raised,
  type_error, system_exit, socket_error, All, arith,
}
use configuration.Abbey.Poll.{SqsMessage, Round, poll, finished, TaskReport, start_state}
use configuration.Callbacks.Sqs.{
  text, flag, TaskOutcome, Message, called, result_of, stats_of, Payload, Plugin, Times, Sqs,
  clip_output, clip_lines, clip_result, send_queue_message, init, Notice, on_failed, on_ok,
  on_task_start, on_stats, notify, notify_all,
}
use configuration.Callbacks.Sqs.Fitting.{Fits, notify_all-Fits}
use configuration.Callbacks.Sqs.Told.{view}
use configuration.Callbacks.Sqs.Polled.{IsDelivered, all_delivered, delivered, notify_all-poll}

program : Unit {0}
unfolding clip_output clip_lines clip_result send_queue_message init notify_all
program = tt

abbrev sqs : Sqs
sqs = record {
  connect = λ region. ok true;
  create_queue = λ name. ok tt;
  send_message = λ payload. ok tt;
}

abbrev plugin : Plugin
plugin = record { enable_sqs = true; start_time = 100; prefix = "p"; last_seen_ts = [] }

run_init :
    init sqs
      (("ANSIBLE_ENABLE_SQS", "true")
        ∷ ("SQS_REGION", "r")
        ∷ ("SQS_NAME", "q")
        ∷ ("SQS_MSG_PREFIX", "p")
        ∷ [])
      100
    ≡ ok plugin
unfolding program
run_init = refl

run_unnamed :
    init sqs (("ANSIBLE_ENABLE_SQS", "true") ∷ ("SQS_REGION", "r") ∷ []) 100
    ≡ raised (system_exit 1)
unfolding program
run_unnamed = refl

abbrev at_time : ℕ → Times
at_time time = record { asked = time; seen = time }

abbrev installed : TaskOutcome
installed = record {
  invocation = some (record { module_args = "name=git"; module_name = some "apt" });
  changed = some true;
  stderr = some (flag false);
  stdout = some (text ("o" ∷ "k" ∷ []));
  stdout_lines = some ("ok" ∷ []);
}

-- A true truth value in an output has no length.
run_flagged :
    (notify sqs (on_ok (record installed { stdout = some (flag true) })) (at_time 105) plugin).0
    ≡ raised type_error
unfolding program
run_flagged = refl

-- The notice of a connection that fails cannot be printed, and no second attempt is made.
run_unreachable :
    (notify
      (record sqs { send_message = λ payload. raised socket_error })
      (on_task_start "install")
      (at_time 105)
      plugin).0
    ≡ raised type_error
unfolding program
run_unreachable = refl

abbrev notices : List (Notice × Times)
notices =
    (on_task_start "install", at_time 103)
    ∷ (on_failed installed true, at_time 104)
    ∷ (on_ok installed, at_time 105)
    ∷ (on_stats [] 107, at_time 107)
    ∷ (on_stats [] 109, at_time 109)
    ∷ []

abbrev payload : String → Message → ℕ → Option ℕ → Payload
payload msg_type msg ts delta = record {
  msg_type = msg_type;
  msg = msg;
  ts = ts;
  prefix = "p";
  delta = delta;
}

abbrev task_payload : Payload
task_payload = payload "TASK" (called "install") 3 none

abbrev ok_payload : Payload
ok_payload = payload "OK" (result_of installed) 5 (some 2)

abbrev first_end : Payload
first_end = payload "STATS" (stats_of (record { delta = 7; counts = [] })) 7 none

abbrev second_end : Payload
second_end = payload "STATS" (stats_of (record { delta = 9; counts = [] })) 9 none

run_notices :
    (notify_all sqs notices plugin).2 ≡ task_payload ∷ ok_payload ∷ first_end ∷ second_end ∷ []
unfolding program
run_notices = refl

notify_all-Fits_example : All Fits (notify_all sqs notices plugin).2
notify_all-Fits_example = notify_all-Fits sqs notices plugin

abbrev loads : Payload → Option configuration.Abbey.Poll.Event
loads p = some (view p)

abbrev dumps : Payload → Payload
dumps p = p

abbrev message : Payload → SqsMessage
message p = record { body = some (view p); sent = 10; received = 10 }

-- The queue hands the last message out first.
abbrev messages : List SqsMessage
messages = message second_end ∷ message ok_payload ∷ message task_payload ∷ message first_end ∷ []

IsDelivered-messages : IsDelivered dumps loads 13 (notify_all sqs notices plugin).2 messages
unfolding program
IsDelivered-messages =
    delivered (message second_end ∷ message ok_payload ∷ []) (message task_payload)
      (message first_end ∷ []) refl (omega arith)
      (delivered (message second_end ∷ []) (message ok_payload) (message first_end ∷ []) refl
        (omega arith)
        (delivered (message second_end ∷ []) (message first_end) [] refl (omega arith)
          (delivered [] (message second_end) [] refl (omega arith) all_delivered)))

abbrev quiet : Round
quiet = record { messages = []; now = 30 }

few_sent : length (notify_all sqs notices plugin).2 ≤ 4
unfolding program
few_sent = omega arith

notify_all-poll_example :
    (ts : ℕ) × (report : List TaskReport) × (poll false 10
        (record { messages = messages; now = 30 } ∷ quiet ∷ quiet ∷ quiet ∷ [])
        start_state
      ≡ ok (finished ts report))
notify_all-poll_example =
    notify_all-poll dumps loads 13 (λ p. refl) sqs (λ p. refl) notices plugin refl
      (tt, (refl, ((refl, refl), (tt, (tt, tt))))) (omega arith) messages IsDelivered-messages false
      10 30 (quiet ∷ quiet ∷ quiet ∷ []) (omega arith)
      ((refl, omega arith), ((refl, omega arith), ((refl, omega arith), tt))) few_sent
