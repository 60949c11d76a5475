-- ===== src/Lifecycle/Tests.antt =====
-- The theorems on the lifecycle handler at a batch of three messages.
use configuration.Base.{
  ◌≡◌, refl, true, false, List, [], ◌∷◌, String, ◌==◌, string_eq, Dict, ok, raised, missing_host,
  index_error, ◌≢◌, none, arith, IsIn, at_front, behind, if◌then◌else◌,
}
use configuration.Lifecycle.Handler.{
  Message, Instance, Call, check_output, delete_message, Aws, LifecycleHandler, readable,
  base_command, split_blanks, is_termination, continue_command, process_lifecycle_messages,
  process_message, process_termination, process_other, retire_or_wait, verify_ok_to_retire,
  get_ec2_instance_by_id, run_subprocess_command, continue_lifecycle, delete_sqs_message,
  read_message, item, record_lifecycle_action_heartbeat,
}
use configuration.Lifecycle.Justified.{
  Terminates, Notifies, IsMarked, IsMissing, JustifiedBy, retires,
}
use configuration.Lifecycle.Safety.{process_lifecycle_messages_sound}
use configuration.Lifecycle.Progress.{
  IsKnown, known_marked, known_missing, known_notice, IsUnexpected,
  process_lifecycle_messages_complete, process_lifecycle_messages_ok,
}

program : Unit {0}
unfolding base_command split_blanks is_termination process_lifecycle_messages process_message
    process_termination process_other retire_or_wait verify_ok_to_retire get_ec2_instance_by_id
    run_subprocess_command continue_lifecycle delete_sqs_message read_message item
    record_lifecycle_action_heartbeat
program = tt

abbrev safe : Instance
safe = record { tags = ("safe_to_retire", "True") ∷ [] }

ok_not_raised {ℓ} : {A : Type ℓ} (a : A) → ok a ≢ raised missing_host
ok_not_raised a h = cc

-- There is one instance, i-1.
abbrev cloud : Aws
cloud = record {
  get_only_instances = λ id. ok (if id == "i-1" then safe ∷ [] else []);
  run = λ words. ok tt;
  delete = λ m. ok tt;
  get_only_again = λ id. ok (if id == "i-1" then safe ∷ [] else []);
  instances-missing_host = λ id. ok_not_raised _;
  again-missing_host = λ id. ok_not_raised _;
  run-missing_host = λ words. ok_not_raised _;
  delete-missing_host = λ m. ok_not_raised _;
}

abbrev handler : LifecycleHandler
handler = record {
  hook = "hook";
  base_cli_command = base_command "python" "aws" none "";
  dry_run = false;
}

abbrev dry_handler : LifecycleHandler
dry_handler = record {
  hook = "hook";
  base_cli_command = base_command "python" "aws" none "";
  dry_run = true;
}

abbrev terminating : String → Dict String String
terminating id =
    ("LifecycleTransition", "autoscaling:EC2_INSTANCE_TERMINATING")
    ∷ ("EC2InstanceId", id)
    ∷ ("AutoScalingGroupName", "group")
    ∷ ("LifecycleActionToken", "token")
    ∷ []

abbrev retiring : Message
retiring = record { handle = 1; body = readable (terminating "i-1") }

abbrev lost : Message
lost = record { handle = 2; body = readable (terminating "i-2") }

abbrev test_notice : Message
test_notice = record {
  handle = 3;
  body = readable (("Event", "autoscaling:TEST_NOTIFICATION") ∷ []);
}

abbrev strange : Message
strange = record { handle = 4; body = readable (("Event", "other") ∷ ("MessageId", "m") ∷ []) }

abbrev batch : List Message
batch = retiring ∷ lost ∷ test_notice ∷ []

abbrev completion : List String
completion =
    "python" ∷ "aws" ∷ "autoscaling" ∷ "complete-lifecycle-action" ∷ "--lifecycle-hook-name"
    ∷ "hook" ∷ "--auto-scaling-group-name" ∷ "group" ∷ "--lifecycle-action-token" ∷ "token"
    ∷ "--lifecycle-action-result" ∷ "CONTINUE" ∷ []

abbrev calls : List Call
calls =
    check_output completion
    ∷ delete_message retiring
    ∷ delete_message lost
    ∷ delete_message test_notice
    ∷ []

run_batch : process_lifecycle_messages cloud handler batch ≡ (ok tt, calls)
unfolding program
run_batch = refl

-- An instance that is gone between the two questions for it ends the batch.
run_vanished :
    process_lifecycle_messages
      (record cloud { get_only_again = λ id. ok []; again-missing_host = λ id. ok_not_raised _ })
      handler
      batch
    ≡ (raised index_error, [])
unfolding program
run_vanished = refl

retiring-Terminates : Terminates retiring "i-1" "group" "token"
unfolding program
retiring-Terminates = record {
  as_message = terminating "i-1";
  body = refl;
  transition = refl;
  id = refl;
  group = refl;
  action = refl;
}

lost-Terminates : Terminates lost "i-2" "group" "token"
unfolding program
lost-Terminates = record {
  as_message = terminating "i-2";
  body = refl;
  transition = refl;
  id = refl;
  group = refl;
  action = refl;
}

notifies : Notifies test_notice
unfolding program
notifies = record {
  as_message = ("Event", "autoscaling:TEST_NOTIFICATION") ∷ [];
  body = refl;
  transition = refl;
  event = refl;
}

unexpected : IsUnexpected strange
unfolding program
unexpected = record {
  as_message = ("Event", "other") ∷ ("MessageId", "m") ∷ [];
  body = refl;
  transition = refl;
  kind = "other";
  event = refl;
  differs = refl;
  id = "m";
  message_id = refl;
}

is_marked : IsMarked cloud "i-1" true
is_marked = record {
  counted = safe;
  single = refl;
  instance_ = safe;
  others = [];
  again = refl;
  tag = refl;
}

is_missing : IsMissing cloud "i-2"
is_missing = record { instances = []; answer = refl; number = λ e. omega arith }

batch-IsKnown : (m : Message) → IsIn m batch → IsKnown cloud m
batch-IsKnown m at_front = known_marked true retiring-Terminates is_marked
batch-IsKnown m (behind at_front) = known_missing lost-Terminates is_missing
batch-IsKnown m (behind (behind at_front)) = known_notice notifies
batch-IsKnown m (behind (behind (behind i))) = elim i [ ]

deletes_lost : IsIn (delete_message lost) (process_lifecycle_messages cloud handler batch).1
unfolding program
deletes_lost = behind (behind at_front)

process_lifecycle_messages_sound_example :
    (m : Message) × IsIn m batch × JustifiedBy cloud handler m (delete_message lost)
process_lifecycle_messages_sound_example =
    process_lifecycle_messages_sound cloud handler batch (delete_message lost) deletes_lost

batch_ok : (process_lifecycle_messages cloud handler batch).0 ≡ ok tt
unfolding program
batch_ok = refl

process_lifecycle_messages_complete_example :
    IsIn
      (check_output (split_blanks (continue_command cloud handler "group" "token")))
      (process_lifecycle_messages cloud handler batch).1
process_lifecycle_messages_complete_example =
    process_lifecycle_messages_complete cloud handler batch retiring
      (check_output (split_blanks (continue_command cloud handler "group" "token"))) batch_ok
      at_front (retires refl retiring-Terminates is_marked)

process_lifecycle_messages_ok_example : (process_lifecycle_messages cloud handler batch).0 ≡ ok tt
process_lifecycle_messages_ok_example =
    process_lifecycle_messages_ok cloud handler batch (λ words. refl) (λ m. refl) batch-IsKnown
