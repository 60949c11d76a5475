-- ===== src/Callbacks/Sqs.antt =====
-- playbooks/callback_plugins/sqs.py, which puts Ansible's events on a queue. A time is a number of
-- thousandths of a second. An output that is clipped is the list of its characters, or a truth
-- value; a payload is what is given to `json.dumps`.
pub mod Fitting
pub mod Told
pub mod Polled
mod Tests
use Prim.Native.Char.{Char}
use configuration.Base.{
  ℕ, zero, suc, ◌-◌, Bool, true, false, not, ◌&&◌, ◌||◌, Option, none, some, List, [], ◌∷◌, ◌++◌,
  String, ◌==◌, string_eq, ltb, if◌then◌else◌, length, Result, ok, raised, type_error, socket_error,
  system_exit, Exception, Dict, lookup, has_key, put, ◌>>=◌ as ◌>>>=◌,
}
use configuration.Base.Script.{Script, from, perform, assign, when, ◌>>=◌, ◌>>◌}

pub data Output : Type 0 where
  text : List Char → Output
  flag : Bool → Output

pub record Invocation : Type 0 where
  pub module_args : String
  pub module_name : Option String

-- The result of a task, by the keys that are looked at.
pub record TaskOutcome : Type 0 where
  pub invocation : Option Invocation
  pub changed : Option Bool
  pub stderr : Option Output
  pub stdout : Option Output
  pub stdout_lines : Option (List String)

-- The counts of hosts in the attributes of `stats`.
pub record Stats : Type 0 where
  pub delta : ℕ
  pub counts : List (String × List (String × ℕ))

pub data Message : Type 0 where
  called : String → Message
  result_of : TaskOutcome → Message
  stats_of : Stats → Message

pub record Payload : Type 0 where
  pub msg_type : String
  pub msg : Message
  pub ts : ℕ
  pub prefix : String
  pub delta : Option ℕ

-- The attributes of `CallbackModule`.
pub record Plugin : Type 0 where
  pub enable_sqs : Bool
  pub start_time : ℕ
  pub prefix : String
  pub last_seen_ts : Dict String ℕ

-- What `time.time()` says, where it is asked first and then.
pub record Times : Type 0 where
  pub asked : ℕ
  pub seen : ℕ

-- What boto answers; a connection is refused where there are no credentials for it.
pub record Sqs : Type 0 where
  pub connect : String → Result Bool
  pub create_queue : String → Result (Unit {0})
  pub send_message : Payload → Result (Unit {0})

-- `xs[n:]`
abbrev pub drop {ℓ} : {A : Type ℓ} → ℕ → List A → List A
drop zero xs = xs
drop (suc n) [] = []
drop (suc n) (x ∷ xs) = drop n xs

-- `xs[-n:]`
abbrev pub last {ℓ} : {A : Type ℓ} → ℕ → List A → List A
last n xs = drop (length xs - n) xs

-- "(clipping) ... "
abbrev pub clipping : List Char
clipping =
    "(" ∷ "c" ∷ "l" ∷ "i" ∷ "p" ∷ "p" ∷ "i" ∷ "n" ∷ "g" ∷ ")" ∷ " " ∷ "." ∷ "." ∷ "." ∷ " " ∷ []

unfoldable pub clip_output : Output → Result Output
clip_output (text characters) =
    ok
      (text (if ltb 1000 (length characters) then clipping ++ last 1000 characters else characters))
clip_output (flag true) = raised type_error
clip_output (flag false) = ok (flag false)

abbrev pub clip_if_any : Option Output → Result (Option Output)
clip_if_any none = ok none
clip_if_any (some output) = clip_output output >>>= λ clipped. ok (some clipped)

unfoldable pub clip_lines : Option (List String) → Option (List String)
clip_lines none = none
clip_lines (some lines) =
    some (if ltb 20 (length lines) then "(clipping) ... " ∷ last 20 lines else lines)

unfoldable pub clip_result : TaskOutcome → Result TaskOutcome
clip_result res = clip_if_any res.stderr >>>= λ stderr. clip_if_any res.stdout >>>= λ stdout.
    ok (record res { stderr = stderr; stdout = stdout; stdout_lines = clip_lines res.stdout_lines })

abbrev pub clip : Message → Result Message
clip (result_of res) = clip_result res >>>= λ clipped. ok (result_of clipped)
clip msg = ok msg

abbrev pub is_result : String → Bool
is_result msg_type = msg_type == "OK" || msg_type == "FAILURE"

abbrev pub since : ℕ → Option ℕ → Option ℕ
since now none = none
since now (some task) = some (now - task)

-- The handler of `socket.gaierror` adds the exception to a text.
abbrev pub retried : Result (Unit {0}) → Result (Unit {0})
retried (raised socket_error) = raised type_error
retried answer = answer

abbrev pub see_message : String → ℕ → Plugin → Plugin
see_message msg_type now self = record self { last_seen_ts = put msg_type now self.last_seen_ts }

abbrev pub payload_of : String → Message → Times → Plugin → Payload
payload_of msg_type msg t self = record {
  msg_type = msg_type;
  msg = msg;
  ts = t.asked - self.start_time;
  prefix = self.prefix;
  delta = if is_result msg_type then since t.seen (lookup "TASK" self.last_seen_ts) else none;
}

-- The results of "setup" are not sent.
abbrev pub is_sent : Option String → Bool
is_sent none = false
is_sent (some module_name) = not (module_name == "setup")

abbrev pub names_module : Option Invocation → Bool
names_module none = false
names_module (some invocation) = is_sent invocation.module_name

abbrev pub env_or_exit : Option String → Result String
env_or_exit none = raised (system_exit 1)
env_or_exit (some value) = ok value

abbrev pub exit_if_refused : Bool → Result (Unit {0})
exit_if_refused true = ok tt
exit_if_refused false = raised (system_exit 1)

abbrev pub prefix_of : Option String → String
prefix_of none = ""
prefix_of (some prefix) = prefix

abbrev pub disabled : Plugin
disabled = record { enable_sqs = false; start_time = 0; prefix = ""; last_seen_ts = [] }

module _ (sqs : Sqs) where
  abbrev pub send : Payload → Script Plugin Payload (Unit {0})
  send payload = perform payload (retried (sqs.send_message payload))

  abbrev pub send_clipped : Message → String → Times → Plugin → Script Plugin Payload (Unit {0})
  send_clipped msg msg_type t self =
      from (if is_result msg_type then clip msg else ok msg) >>= λ clipped.
      send (payload_of msg_type clipped t self)

  abbrev pub put_on_queue : Message → String → Times → Plugin → Script Plugin Payload (Unit {0})
  put_on_queue msg msg_type t self =
      assign (see_message msg_type t.seen) >> send_clipped msg msg_type t self

  unfoldable pub send_queue_message : Message → String → Times → Script Plugin Payload (Unit {0})
  send_queue_message msg msg_type t self =
      when self.enable_sqs (put_on_queue msg msg_type t self) self

  abbrev pub runner_on_failed : TaskOutcome → Bool → Times → Script Plugin Payload (Unit {0})
  runner_on_failed res ignore_errors t self =
      when (self.enable_sqs && not ignore_errors) (send_queue_message (result_of res) "FAILURE" t)
        self

  abbrev pub runner_on_ok : TaskOutcome → Times → Script Plugin Payload (Unit {0})
  runner_on_ok res t self =
      when (self.enable_sqs && names_module res.invocation)
        (send_queue_message (result_of res) "OK" t) self

  abbrev pub playbook_on_task_start : String → Times → Script Plugin Payload (Unit {0})
  playbook_on_task_start name t self =
      when self.enable_sqs (send_queue_message (called name) "TASK" t) self

  abbrev pub playbook_on_play_start : String → Times → Script Plugin Payload (Unit {0})
  playbook_on_play_start pattern t self =
      when self.enable_sqs (send_queue_message (called pattern) "START" t) self

  abbrev pub playbook_on_stats :
      List (String × List (String × ℕ)) → ℕ → Times → Script Plugin Payload (Unit {0})
  playbook_on_stats counts now t self =
      when self.enable_sqs
        (send_queue_message (stats_of (record { delta = now - self.start_time; counts = counts }))
          "STATS" t)
        self

  -- `__init__`, where boto is there.
  unfoldable pub init : Dict String String → ℕ → Result Plugin
  init environ now =
      if has_key "ANSIBLE_ENABLE_SQS" environ
      then (env_or_exit (lookup "SQS_REGION" environ) >>>= λ region.
          sqs.connect region >>>= exit_if_refused >>>= λ _.
          env_or_exit (lookup "SQS_NAME" environ) >>>= λ name. sqs.create_queue name >>>= λ _.
          ok (record {
            enable_sqs = true;
            start_time = now;
            prefix = prefix_of (lookup "SQS_MSG_PREFIX" environ);
            last_seen_ts = [];
          }))
      else ok disabled

-- What Ansible tells a plugin.
pub data Notice : Type 0 where
  on_failed : TaskOutcome → Bool → Notice
  on_ok : TaskOutcome → Notice
  on_task_start on_play_start : String → Notice
  on_stats : List (String × List (String × ℕ)) → ℕ → Notice

module _ (sqs : Sqs) where
  abbrev pub notify : Notice → Times → Script Plugin Payload (Unit {0})
  notify (on_failed res ignore_errors) = runner_on_failed sqs res ignore_errors
  notify (on_ok res) = runner_on_ok sqs res
  notify (on_task_start name) = playbook_on_task_start sqs name
  notify (on_play_start pattern) = playbook_on_play_start sqs pattern
  notify (on_stats counts now) = playbook_on_stats sqs counts now

  unfoldable pub notify_all : List (Notice × Times) → Script Plugin Payload (Unit {0})
  notify_all [] = from (ok tt)
  notify_all ((notice, t) ∷ notices) = notify notice t >> notify_all notices
