-- ===== src/Callbacks/Timing/Loggers.antt =====
-- The three loggers of playbooks/callback_plugins/task_timing.py. A metric and a message of the log
-- hold what is put into the dictionary that is sent or written.
use configuration.Base.{
  ℕ, zero, suc, Bool, true, false, not, ◌&&◌, Option, none, some, List, [], ◌∷◌, ◌++◌, String,
  if◌then◌else◌, length, Exception, Result, ok, raised, attribute_error, Dict, is_empty, replace,
  lower, dirname, ◌>>=◌ as ◌>>>=◌,
}
use Prim.Native.String.{◌++◌ as ◌<>◌}
use configuration.Base.Script.{Script, from, perform, when, each, except_exception, ◌>>=◌, ◌>>◌}
use configuration.Callbacks.Timing.Stamp.{ℤ, Timestamp, duration, durations, sort_tasks}

pub record Metric : Type 0 where
  pub metric : String
  pub date_happened : ℕ
  pub points : ℤ
  pub tags : List String

pub record Message : Type 0 where
  pub task : Option String
  pub playbook : Option String
  pub started_at : String
  pub ended_at : String
  pub duration : ℤ

-- A line of the standard output, by what is formatted into it.
pub data Line : Type 0 where
  task_line : String → ℤ → Line
  finished_line : Option String → Option ℕ → ℕ → ℤ → Line

pub data Call : Type 0 where
  send_tasks : List Metric → Call
  send_play : Metric → Call
  info : Line → Call
  failed : String → Call
  make_dirs : String → Call
  write : String → String → Call

-- The environment, and what Datadog and the operating system answer. `dump` is what `json.dump`
-- writes, and whether it raises.
pub record Host : Type 0 where
  pub timer_log : Option String
  pub initialize : String → Result (Unit {0})
  pub send_tasks : List Metric → Result (Unit {0})
  pub send_play : Metric → Result (Unit {0})
  pub exists : String → Bool
  pub make_dirs : String → Result (Unit {0})
  pub open_log : String → Result (Unit {0})
  pub dump : Message → Result (Unit {0}) × String
  pub mktime : ℕ → Result ℕ
  pub isoformat : ℕ → String
  pub strftime : ℕ → String → Result String
  -- whether `format` takes a text, or raises for what it cannot encode
  pub formats : String → Result (Unit {0})

abbrev pub clean_tag_value : String → String
clean_tag_value value = lower (replace " " "-" (replace " | " "." value))

abbrev clean_name : Option String → Result String
clean_name none = raised attribute_error
clean_name (some name) = ok (clean_tag_value name)

abbrev initialized : Result (Unit {0}) → Result Bool
initialized answer = answer >>>= λ _. ok true

-- `xs[:n]`
abbrev pub take {ℓ} : {A : Type ℓ} → ℕ → List A → List A
take zero xs = []
take (suc n) [] = []
take (suc n) (x ∷ xs) = x ∷ take n xs

module _ (host : Host) where
  -- `DatadogTimingLogger()`: whether it is initialized
  abbrev pub datadog_logger : Option String → Result Bool
  datadog_logger none = ok false
  datadog_logger (some key) = if is_empty key then ok false else initialized (host.initialize key)

  abbrev pub iso_end : Option ℕ → Result String
  iso_end none = raised attribute_error
  iso_end (some end) = ok (host.isoformat end)

  abbrev task_metric : Option String → String → Timestamp → Result Metric
  task_metric playbook name timestamp = host.mktime timestamp.start >>>= λ date_happened.
      duration timestamp >>>= λ points. host.formats (clean_tag_value name) >>>= λ _.
      clean_name playbook >>>= λ cleaned. host.formats cleaned >>>= λ _. ok (record {
        metric = "edx.ansible.task_duration";
        date_happened = date_happened;
        points = points;
        tags = ("task:" <> clean_tag_value name) ∷ ("playbook:" <> cleaned) ∷ [];
      })

  abbrev pub task_metrics : Option String → Dict String Timestamp → Result (List Metric)
  task_metrics playbook [] = ok []
  task_metrics playbook ((name, timestamp) ∷ results) =
      task_metric playbook name timestamp >>>= λ m.
      task_metrics playbook results >>>= λ rest. ok (m ∷ rest)

  abbrev pub play_metric : Option String → Timestamp → Result Metric
  play_metric playbook timestamp = host.mktime timestamp.start >>>= λ date_happened.
      duration timestamp >>>= λ points. clean_name playbook >>>= λ cleaned.
      host.formats cleaned >>>= λ _. ok (record {
        metric = "edx.ansible.playbook_duration";
        date_happened = date_happened;
        points = points;
        tags = ("playbook:" <> cleaned) ∷ [];
      })

  abbrev pub message_of : Option String → Option String → Timestamp → Result Message
  message_of task playbook timestamp = iso_end timestamp.end >>>= λ ended_at.
      duration timestamp >>>= λ d. ok (record {
        task = task;
        playbook = playbook;
        started_at = host.isoformat timestamp.start;
        ended_at = ended_at;
        duration = d;
      })

  abbrev pub task_messages : Option String → Dict String Timestamp → Result (List Message)
  task_messages playbook [] = ok []
  task_messages playbook ((name, timestamp) ∷ results) =
      message_of (some name) playbook timestamp >>>= λ m.
      task_messages playbook results >>>= λ rest. ok (m ∷ rest)

  -- The messages of the tasks, and that of the play behind them.
  unfoldable pub messages_of :
      Option String → Timestamp → Dict String Timestamp → Result (List Message)
  messages_of playbook timestamp results = task_messages playbook results >>>= λ tasks.
      message_of none playbook timestamp >>>= λ play. ok (tasks ++ play ∷ [])

  module _ {ℓ} {S : Type ℓ} where
    abbrev pub send_metrics : Option String → Timestamp → List Metric → Script S Call (Unit {0})
    send_metrics playbook timestamp metrics =
        perform (send_tasks metrics) (host.send_tasks metrics)
        >> (from (play_metric playbook timestamp) >>= λ m. perform (send_play m) (host.send_play m))

    abbrev pub tell_failure : String → Exception → Script S Call (Unit {0})
    tell_failure text e = perform (failed text) (ok tt)

    abbrev pub datadog_send : Option String → Timestamp → List Metric → Script S Call (Unit {0})
    datadog_send playbook timestamp metrics =
        except_exception (send_metrics playbook timestamp metrics)
          (tell_failure "Failed to log timing data to datadog")

    unfoldable pub datadog_log_play :
        Bool → Option String → Timestamp → Dict String Timestamp → Script S Call (Unit {0})
    datadog_log_play datadog playbook timestamp results =
        when datadog (from (task_metrics playbook results) >>= datadog_send playbook timestamp)

    abbrev pub info_task : String × ℤ → Script S Call (Unit {0})
    info_task (name, d) =
        from (host.formats name) >>= λ _. perform (info (task_line name d)) (ok tt)

    abbrev pub info_end : Option String → Timestamp → ℕ → ℤ → Script S Call (Unit {0})
    info_end playbook timestamp count d =
        perform (info (finished_line playbook timestamp.end count d)) (ok tt)

    abbrev pub info_tasks :
        Option String → Timestamp → ℕ → List (String × ℤ) → Script S Call (Unit {0})
    info_tasks playbook timestamp count timed =
        each info_task (take 10 (sort_tasks timed))
        >> (from (duration timestamp) >>= info_end playbook timestamp count)

    unfoldable pub logging_log_play :
        Option String → Timestamp → Dict String Timestamp → Script S Call (Unit {0})
    logging_log_play playbook timestamp results =
        from (durations results) >>= info_tasks playbook timestamp (length results)

    abbrev pub write_message : String → Message → Script S Call (Unit {0})
    write_message path m =
        perform (write path (host.dump m).1) (host.dump m).0 >> perform (write path "\n") (ok tt)

    abbrev pub make_log_dir : String → Script S Call (Unit {0})
    make_log_dir log_dir =
        when (not (is_empty log_dir) && not (host.exists log_dir))
          (perform (make_dirs log_dir) (host.make_dirs log_dir))

    abbrev pub write_messages : String → List Message → Script S Call (Unit {0})
    write_messages log_path messages =
        make_log_dir (dirname log_path)
        >> from (host.open_log log_path)
        >> each (write_message log_path) messages

    abbrev pub write_log : String → List Message → Script S Call (Unit {0})
    write_log log_path messages =
        except_exception (write_messages log_path messages)
          (tell_failure "Unable to write json timing log messages")

    abbrev pub json_log_to :
        Option String → Option String → Timestamp → Dict String Timestamp → Script S Call (Unit {0})
    json_log_to none playbook timestamp results = from (ok tt)
    json_log_to (some path) playbook timestamp results =
        from (messages_of playbook timestamp results) >>= λ messages.
        from (host.strftime timestamp.start path) >>= λ log_path. write_log log_path messages

    unfoldable pub json_log_play :
        Option String → Timestamp → Dict String Timestamp → Script S Call (Unit {0})
    json_log_play = json_log_to host.timer_log
