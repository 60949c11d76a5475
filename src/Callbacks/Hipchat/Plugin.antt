-- ===== src/Callbacks/Hipchat/Plugin.antt =====
-- The attributes of `CallbackModule` in hipchat_plugin.py, and what it does with what Ansible tells
-- it. Times and durations are numbers of microseconds; a clock that is set back counts as no time.
use Prim.Native.Char.{Char, code}
use Prim.Native.String.{◌++◌ as ◌<>◌}
use configuration.Base.{
  ℕ, ◌+◌, ◌*◌, Bool, true, false, not, ◌&&◌, ◌||◌, Option, none, some, List, [], ◌∷◌, ◌++◌, String,
  ◌==◌, string_eq, nat_beq, if◌then◌else◌, is_empty, pieces, Result, ok, raised, value_error,
  other_error, Dict, lookup, has_key, ◌>>=◌ as ◌>>>=◌,
}
use configuration.Base.Script.{Script, from, perform, assign, when, except_exception, ◌>>=◌, ◌>>◌}

-- A task of the report. The time is a number of tenths of a second, as it is written.
pub record Row : Type 0 where
  pub changed : Bool
  pub count : ℕ
  pub delta : ℕ
  pub task : String

pub record Plugin : Type 0 where
  pub enabled : Bool
  pub start_time : ℕ
  pub task_report : List Row
  pub last_task : Option String
  pub last_task_changed : Bool
  pub last_task_count : ℕ
  pub last_task_delta : ℕ
  pub last_task_start : ℕ
  pub condensed_task_report : Bool
  pub room : String
  pub from_name : String
  pub hipchat_msg_prefix : String
  pub hipchat_msg_color : String
  pub playbook_name : Option String

-- A message to a room: the room, who says so, the text, its colour and its format.
pub data Call : Type 0 where
  message_room : String → String → String → String → String → Call

-- What hipchat answers, or the missing connection; what `float` makes of a text; and the format
-- "{:0>.1f}", in tenths of a second.
pub record Host : Type 0 where
  pub send : Call → Result (Unit {0})
  pub float : String → Result ℕ
  pub tenths : ℕ → ℕ

-- The result of a task, by the keys that are looked at.
pub record TaskOutcome : Type 0 where
  pub module_name : Option String
  pub changed : Option Bool
  pub delta : Option String
  pub msg : Option String

pub record Play : Type 0 where
  pub filename : String
  pub only_tags : List String
  pub subset : List String

abbrev pub has_text : Option String → Bool
has_text none = false
has_text (some s) = not (is_empty s)

abbrev env_or : String → Option String → String
env_or default none = default
env_or default (some s) = s

abbrev unset : Option String → Bool
unset none = true
unset (some s) = false

-- `__init__`, where both modules are there. `HIPCHAT_CONDENSED` is compared with True: no text is.
abbrev pub enabled_plugin : Dict String String → ℕ → Plugin
enabled_plugin environ now = record {
  enabled = has_key "HIPCHAT_TOKEN" environ;
  start_time = now;
  task_report = [];
  last_task = none;
  last_task_changed = false;
  last_task_count = 0;
  last_task_delta = 0;
  last_task_start = now;
  condensed_task_report = unset (lookup "HIPCHAT_CONDENSED" environ);
  room = env_or "ansible" (lookup "HIPCHAT_ROOM" environ);
  from_name = env_or "ansible" (lookup "HIPCHAT_FROM" environ);
  hipchat_msg_prefix = env_or "" (lookup "HIPCHAT_MSG_PREFIX" environ);
  hipchat_msg_color = env_or "" (lookup "HIPCHAT_MSG_COLOR" environ);
  playbook_name = none;
}

-- Without one of the modules an `ImportError` is raised, if there is a token.
unfoldable pub init : Bool → Bool → Dict String String → ℕ → Result Plugin
init has_hipchat has_prettytable environ now =
    if has_key "HIPCHAT_TOKEN" environ && not (has_hipchat && has_prettytable)
    then raised other_error
    else ok (enabled_plugin environ now)

abbrev pub marks_change : Option Bool → Bool
marks_change none = true
marks_change (some changed) = changed

abbrev pub is_colon : Char → Bool
is_colon c = nat_beq (code c) 58

abbrev three : List String → Result (String × String × String)
three (hour ∷ minute ∷ sec ∷ []) = ok (hour, minute, sec)
three parts = raised value_error

abbrev pub row_if : Bool → Row → List Row → List Row
row_if given row report = if given then report ++ row ∷ [] else report

abbrev pub text_or : Option String → String
text_or none = ""
text_or (some s) = s

module _ (host : Host) where
  -- An hour counts as 1200 seconds.
  unfoldable pub total_of : String → Result ℕ
  total_of delta = three (pieces is_colon delta) >>>= λ (hour, minute, sec).
      host.float hour >>>= λ h.
      host.float minute >>>= λ m. host.float sec >>>= λ s. ok (h * 1200 + m * 60 + s)

  unfoldable pub delta_of : Option String → Result ℕ
  delta_of none = ok 0
  delta_of (some delta) = if is_empty delta then ok 0 else total_of delta

  abbrev pub room_call : String → String → String → Plugin → Call
  room_call message color format self =
      message_room self.room self.from_name message
        (if is_empty color then self.hipchat_msg_color else color) format

  -- Whatever the connection raises is only warned of.
  unfoldable pub send_hipchat : String → String → String → Script Plugin Call (Unit {0})
  send_hipchat message color format self =
      except_exception
        (perform (room_call message color format self)
          (host.send (room_call message color format self)))
        (λ e. from (ok tt)) self

  abbrev pub last_row : Plugin → Row
  last_row self = record {
    changed = self.last_task_changed;
    count = self.last_task_count;
    delta = host.tenths self.last_task_delta;
    task = text_or self.last_task;
  }

  unfoldable pub flush_last_task : Plugin → Plugin
  flush_last_task self = record self {
    task_report = row_if (has_text self.last_task) (last_row self) self.task_report;
    last_task_count = 0;
    last_task_changed = false;
    last_task = none;
    last_task_delta = 0;
  }

  abbrev pub mark_changed : Option Bool → Plugin → Plugin
  mark_changed changed self = record self {
    last_task_changed = marks_change changed || self.last_task_changed;
  }

  abbrev pub count_result : ℕ → Plugin → Plugin
  count_result total self = record self {
    last_task_delta = self.last_task_delta + total;
    last_task_count = self.last_task_count + 1;
  }

  abbrev pub restart : ℕ → Plugin → Plugin
  restart now self = record self { last_task_start = now }

  -- `_process_message(res, 'OK')`
  abbrev pub add_result : TaskOutcome → Script Plugin Call (Unit {0})
  add_result res = assign (mark_changed res.changed) >> from (delta_of res.delta) >>= λ total.
      assign (count_result total)

  abbrev pub add_or_flush : TaskOutcome → Bool → Script Plugin Call (Unit {0})
  add_or_flush res true = add_result res
  add_or_flush res false = assign flush_last_task

  unfoldable pub process_ok : TaskOutcome → ℕ → Script Plugin Call (Unit {0})
  process_ok res now self =
      (add_or_flush res (has_text self.last_task) >> assign (restart now)) self

  -- `_process_message(name, 'TASK_START')`
  unfoldable pub process_start : String → ℕ → Plugin → Plugin
  process_start name now self = record (flush_last_task self) {
    last_task = some name;
    last_task_start = now;
  }

  -- `_process_message` for every other kind but a failure
  unfoldable pub process_any : ℕ → Plugin → Plugin
  process_any now self = restart now (flush_last_task self)

  abbrev pub failure_text : String → String → String
  failure_text prefix msg =
      "/code " <> prefix <> ": The ansible run returned the following error:\n\n " <> msg

  abbrev pub tell_error : Option String → Script Plugin Call (Unit {0})
  tell_error none = from (ok tt)
  tell_error (some msg) =
      λ self. send_hipchat (failure_text self.hipchat_msg_prefix msg) "red" "text" self

  -- `_process_message(res, 'FAILED')`
  unfoldable pub process_failed : TaskOutcome → ℕ → Script Plugin Call (Unit {0})
  process_failed res now = assign (process_any now) >> tell_error res.msg

-- What Ansible tells the plugin while it runs. The last one stands for an error, a host that was
-- skipped and the three of an asynchronous task.
pub data Notice : Type 0 where
  on_ok on_failed : TaskOutcome → Notice
  on_task_start : String → Notice
  on_other : Notice

-- The results of "setup" are left out.
abbrev pub is_reported : Option String → Bool
is_reported none = false
is_reported (some module_name) = not (module_name == "setup")

module _ (host : Host) where
  abbrev pub handle_notice : Notice → ℕ → Script Plugin Call (Unit {0})
  handle_notice (on_ok res) now = when (is_reported res.module_name) (process_ok host res now)
  handle_notice (on_failed res) now = process_failed host res now
  handle_notice (on_task_start name) now = assign (process_start host name now)
  handle_notice on_other now = assign (process_any host now)

  unfoldable pub notify : Notice → ℕ → Script Plugin Call (Unit {0})
  notify notice now self = when self.enabled (handle_notice notice now) self

  unfoldable pub notify_all : List (Notice × ℕ) → Script Plugin Call (Unit {0})
  notify_all [] = from (ok tt)
  notify_all ((notice, now) ∷ notices) = notify notice now >> notify_all notices
