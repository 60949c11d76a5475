-- ===== src/Lifecycle/Handler.antt =====
-- The methods of `LifecycleHandler`. boto and the AWS command line are not part of the repository:
-- what they return is a parameter, and the calls that change something are recorded in order.
use Prim.Native.Char.{code}
use Prim.Native.String.{◌++◌}
use configuration.Base.{
  ℕ, ◌+◌, ◌≢◌, Bool, true, false, ◌&&◌, Option, none, some, List, [], ◌∷◌, String, ◌==◌, string_eq,
  nat_beq, if◌then◌else◌, leb, Result, ok, raised, missing_host, key_error, index_error,
  value_error, type_error, Dict, lookup, is_empty,
}
use configuration.Base.Traced.{Traced, from, perform, except_missing_host, traced_each, ◌>>=◌, ◌>>◌}

-- The body of a message: JSON whose "Message" is JSON again, here that inner object with its values
-- as texts.
pub data Body : Type 0 where
  unreadable without_message : Body
  readable : Dict String String → Body

pub record Message : Type 0 where
  pub handle : ℕ
  pub body : Body

pub record Instance : Type 0 where
  pub tags : Dict String String

pub data Call : Type 0 where
  check_output : List String → Call
  delete_message : Message → Call

-- What boto and the command line answer. They do not know `MissingHostError`, a class of this script.
pub record Aws : Type 0 where
  pub get_only_instances : String → Result (List Instance)
  -- the answer to the second question for an instance, which may be another one
  pub get_only_again : String → Result (List Instance)
  pub run : List String → Result (Unit {0})
  pub delete : Message → Result (Unit {0})
  pub instances-missing_host : (id : String) → get_only_instances id ≢ raised missing_host
  pub again-missing_host : (id : String) → get_only_again id ≢ raised missing_host
  pub run-missing_host : (words : List String) → run words ≢ raised missing_host
  pub delete-missing_host : (m : Message) → delete m ≢ raised missing_host

pub record LifecycleHandler : Type 0 where
  pub hook : String
  pub base_cli_command : String
  pub dry_run : Bool

abbrev pub option : String → Option String → String
option flag none = ""
option flag (some value) = if is_empty value then "" else flag ++ " " ++ value ++ " "

-- The command that `__init__` starts every command line with.
unfoldable pub base_command : String → String → Option String → String → String
base_command python_bin aws_bin profile region =
    python_bin
    ++ " "
    ++ aws_bin
    ++ " "
    ++ option "--profile" profile
    ++ option "--region" (some region)

-- `command.split(' ')`: the text up to the first blank, and the texts behind it.
abbrev pub cut_blanks : String → String × List String
cut_blanks String.[] = (String.[], [])
cut_blanks (String.◌∷◌ c s) =
    let (word, rest) = cut_blanks s in
    if nat_beq (code c) 32 then (String.[], word ∷ rest) else (String.◌∷◌ c word, rest)

unfoldable pub split_blanks : String → List String
split_blanks s = let (word, rest) = cut_blanks s in word ∷ rest

abbrev lower : ℕ → ℕ
lower c = if leb 65 c && leb c 90 then c + 32 else c

-- `s.lower() == t`
abbrev pub lower_is : String → String → Bool
lower_is String.[] String.[] = true
lower_is (String.◌∷◌ c s) (String.◌∷◌ d t) = nat_beq (lower (code c)) (code d) && lower_is s t
lower_is _ _ = false

abbrev pub is_true : Option String → Bool
is_true none = false
is_true (some tag) = lower_is tag "true"

-- `as_message[key]`
abbrev found : Option String → Result String
found none = raised key_error
found (some value) = ok value

unfoldable pub item : String → Dict String String → Result String
item key as_message = found (lookup key as_message)

-- `json.loads(json.loads(…)['Message'])`
unfoldable pub read_message : Body → Result (Dict String String)
read_message unreadable = raised value_error
read_message without_message = raised key_error
read_message (readable as_message) = ok as_message

abbrev pub is_termination_of : Option String → Bool
is_termination_of none = false
is_termination_of (some transition) = transition == "autoscaling:EC2_INSTANCE_TERMINATING"

unfoldable pub is_termination : Dict String String → Bool
is_termination as_message = is_termination_of (lookup "LifecycleTransition" as_message)

abbrev pub first_instance : Result (List Instance) → Result (Option Instance)
first_instance (raised x) = raised x
first_instance (ok []) = raised index_error
first_instance (ok (i ∷ rest)) = ok (some i)

-- The instances are asked for once to count them and again to take the first.
abbrev pub single_instance :
    Result (List Instance) → Result (List Instance) → Result (Option Instance)
single_instance (raised x) again = raised x
single_instance (ok (i ∷ [])) again = first_instance again
single_instance (ok _) again = ok none

abbrev pub is_retirable : Result (Option Instance) → Result Bool
is_retirable (raised x) = raised x
is_retirable (ok none) = raised missing_host
is_retirable (ok (some i)) = ok (is_true (lookup "safe_to_retire" i.tags))

module _ (aws : Aws) (self : LifecycleHandler) where
  unfoldable pub get_ec2_instance_by_id : String → Result (Option Instance)
  get_ec2_instance_by_id instance_id =
      single_instance (aws.get_only_instances instance_id) (aws.get_only_again instance_id)

  unfoldable pub verify_ok_to_retire : String → Result Bool
  verify_ok_to_retire instance_id = is_retirable (get_ec2_instance_by_id instance_id)

  unfoldable pub run_subprocess_command : String → Traced Call (Unit {0})
  run_subprocess_command command =
      if self.dry_run
      then from (ok tt)
      else perform (check_output (split_blanks command)) (aws.run (split_blanks command))

  abbrev pub heartbeat_command : String → String → String
  heartbeat_command asg token =
      self.base_cli_command ++ "autoscaling record-lifecycle-action-heartbeat "
      ++ "--lifecycle-hook-name " ++ self.hook ++ " --auto-scaling-group-name " ++ asg
      ++ " --lifecycle-action-token " ++ token

  unfoldable pub record_lifecycle_action_heartbeat : String → String → Traced Call (Unit {0})
  record_lifecycle_action_heartbeat asg token = run_subprocess_command (heartbeat_command asg token)

  abbrev pub continue_command : String → String → String
  continue_command asg token =
      self.base_cli_command ++ "autoscaling complete-lifecycle-action --lifecycle-hook-name "
      ++ self.hook ++ " --auto-scaling-group-name " ++ asg ++ " --lifecycle-action-token " ++ token
      ++ " --lifecycle-action-result " ++ "CONTINUE"

  unfoldable pub continue_lifecycle : String → String → Traced Call (Unit {0})
  continue_lifecycle asg token = run_subprocess_command (continue_command asg token)

  unfoldable pub delete_sqs_message : Message → Traced Call (Unit {0})
  delete_sqs_message sqs_message =
      if self.dry_run
      then from (ok tt)
      else perform (delete_message sqs_message) (aws.delete sqs_message)

  -- The body of the `try`.
  unfoldable pub retire_or_wait : String → String → String → Message → Traced Call (Unit {0})
  retire_or_wait instance_id asg token sqs_message = do
    ok_to_retire ← from (verify_ok_to_retire instance_id)
    if ok_to_retire
        then continue_lifecycle asg token >> delete_sqs_message sqs_message
        else record_lifecycle_action_heartbeat asg token

  unfoldable pub process_termination : Dict String String → Message → Traced Call (Unit {0})
  unfolding retire_or_wait
  process_termination as_message sqs_message = do
    instance_id ← from (item "EC2InstanceId" as_message)
    asg ← from (item "AutoScalingGroupName" as_message)
    token ← from (item "LifecycleActionToken" as_message)
    except_missing_host (retire_or_wait instance_id asg token sqs_message)
        (delete_sqs_message sqs_message)

  -- `NotImplemented` cannot be called, so raising it is a `TypeError`.
  unfoldable pub process_other : Dict String String → Message → Traced Call (Unit {0})
  process_other as_message sqs_message = do
    event ← from (item "Event" as_message)
    if event == "autoscaling:TEST_NOTIFICATION"
        then delete_sqs_message sqs_message
        else (from (item "MessageId" as_message) >>= λ _. from (raised type_error))

  unfoldable pub process_message : Message → Traced Call (Unit {0})
  unfolding process_termination process_other
  process_message sqs_message = do
    as_message ← from (read_message sqs_message.body)
    if is_termination as_message
        then process_termination as_message sqs_message
        else process_other as_message sqs_message

  -- The messages are those that the queue handed out.
  unfoldable pub process_lifecycle_messages : List Message → Traced Call (Unit {0})
  unfolding process_message
  process_lifecycle_messages = traced_each process_message
