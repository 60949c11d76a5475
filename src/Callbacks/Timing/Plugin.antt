-- ===== src/Callbacks/Timing/Plugin.antt =====
-- `CallbackModule` of playbooks/callback_plugins/task_timing.py. A play is known by the file of its
-- playbook.
use configuration.Base.{
  ℕ, Bool, Option, none, some, List, [], ◌∷◌, String, string_eq, Result, ok, raised,
  attribute_error, key_error, Dict, lookup, put, basename, root_of, ◌>>=◌ as ◌>>>=◌,
}
use configuration.Base.Script.{Script, from, ◌>>=◌, ◌>>◌}
use configuration.Callbacks.Timing.Stamp.{Timestamp, started, stop}
use configuration.Callbacks.Timing.Loggers.{
  Host, Call, datadog_logger, datadog_log_play, logging_log_play, json_log_play,
}

-- The attributes. `datadog` is whether the first of the loggers is initialized.
pub record Plugin : Type 0 where
  pub stats : Dict String Timestamp
  pub current_task : Option String
  pub playbook_name : Option String
  pub playbook_timestamp : Option Timestamp
  pub play : Option String
  pub datadog : Bool

abbrev pub fresh : Bool → Plugin
fresh datadog = record {
  stats = [];
  current_task = none;
  playbook_name = none;
  playbook_timestamp = none;
  play = none;
  datadog = datadog;
}

-- `CallbackModule()`
unfoldable pub init : Host → Option String → Result Plugin
init host datadog_api_key = datadog_logger host datadog_api_key >>>= λ datadog. ok (fresh datadog)

-- What Ansible's own callback does then is a parameter.
abbrev pub v2_playbook_on_play_start : (Plugin → Result Plugin) → String → Plugin → Result Plugin
v2_playbook_on_play_start super play self = super (record self { play = some play })

abbrev pub start_play : ℕ → Option String → Plugin → Result Plugin
start_play now none self = raised attribute_error
start_play now (some filename) self = ok (record self {
  playbook_name = some (root_of (basename filename));
  playbook_timestamp = some (started now);
})

abbrev pub playbook_on_play_start : ℕ → Plugin → Result Plugin
playbook_on_play_start now self = start_play now self.play self

abbrev pub stop_found :
    String → ℕ → Dict String Timestamp → Option Timestamp → Result (Dict String Timestamp)
stop_found name now stats none = raised key_error
stop_found name now stats (some timestamp) = ok (put name (stop now timestamp) stats)

-- `self.stats[self.current_task].stop()`, where there is a current task.
unfoldable pub stop_task :
    Option String → ℕ → Dict String Timestamp → Result (Dict String Timestamp)
stop_task none now stats = ok stats
stop_task (some name) now stats = stop_found name now stats (lookup name stats)

-- The clock is read where the last task stops and where the next one starts.
unfoldable pub playbook_on_task_start : String → ℕ → ℕ → Plugin → Result Plugin
playbook_on_task_start name stopped now self =
    stop_task self.current_task stopped self.stats >>>= λ stats.
    ok (record self { current_task = some name; stats = put name (started now) stats })

abbrev pub stop_play : ℕ → Option Timestamp → Result Timestamp
stop_play now none = raised attribute_error
stop_play now (some timestamp) = ok (stop now timestamp)

-- `playbook_on_stats` up to its loop: the last task stops, and then the play.
unfoldable pub stop_all : ℕ → ℕ → Plugin → Result (Plugin × Timestamp)
stop_all stopped now self = stop_task self.current_task stopped self.stats >>>= λ stats.
    stop_play now self.playbook_timestamp >>>= λ timestamp.
    ok (record self { stats = stats; playbook_timestamp = some timestamp }, timestamp)

module _ (host : Host) where
  abbrev pub log_play : Plugin × Timestamp → Script (Unit {0}) Call (Unit {0})
  log_play (self, timestamp) =
      datadog_log_play host self.datadog self.playbook_name timestamp self.stats
      >> logging_log_play host self.playbook_name timestamp self.stats
      >> json_log_play host self.playbook_name timestamp self.stats

  unfoldable pub playbook_on_stats : ℕ → ℕ → Plugin → Script (Unit {0}) Call (Unit {0})
  playbook_on_stats stopped now self = from (stop_all stopped now self) >>= log_play

-- What Ansible tells a plugin before the end.
pub data Notice : Type 0 where
  on_play : String → ℕ → Notice
  on_task_start : String → ℕ → ℕ → Notice

-- Ansible's own handler of a play that starts calls the older one.
unfoldable pub notify : Notice → Plugin → Result Plugin
notify (on_play play now) = v2_playbook_on_play_start (playbook_on_play_start now) play
notify (on_task_start name stopped now) = playbook_on_task_start name stopped now

unfoldable pub notify_all : List Notice → Plugin → Result Plugin
notify_all [] self = ok self
notify_all (notice ∷ notices) self = notify notice self >>>= notify_all notices
