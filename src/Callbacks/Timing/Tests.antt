-- ===== src/Callbacks/Timing/Tests.antt =====
-- Runs of playbooks/callback_plugins/task_timing.py, and its theorems at a play of two tasks.
use mathlib.Core.List.{Perm}
use configuration.Base.{
  ℕ, ◌+◌, ◌≤◌, ◌<◌, ◌≡◌, ◌⊎◌, refl, ◌==◌, string_eq, true, false, Option, none, some, List, [], ◌∷◌,
  ◌++◌, map, String, if◌then◌else◌, ok, raised, attribute_error, type_error, value_error,
  other_error, arith, length,
}
use configuration.Callbacks.Timing.Stamp.{ℤ, pos, negsuc, Timestamp, started, durations, sort_tasks}
use configuration.Callbacks.Timing.Loggers.{
  Host, info, task_line, finished_line, Message, clean_tag_value, datadog_log_play,
  logging_log_play, json_log_play, messages_of,
}
use configuration.Callbacks.Timing.Plugin.{
  Plugin, fresh, init, playbook_on_play_start, playbook_on_task_start, stop_task, stop_all,
  playbook_on_stats, Notice, on_play, on_task_start, notify, notify_all,
}
use configuration.Callbacks.Timing.Stopped.{AddsUpTo}
use configuration.Callbacks.Timing.Elapsed.{stop_all-AddsUpTo}
use configuration.Callbacks.Timing.Log.{content, lines_of, told_all, json_log_play-IsLogged}
use configuration.Callbacks.Timing.Longest.{Descending, line_call, logging_log_play-Descending}

program : Unit {0}
unfolding durations sort_tasks datadog_log_play logging_log_play json_log_play messages_of init
    playbook_on_task_start stop_task stop_all playbook_on_stats notify notify_all
program = tt

abbrev text_of : Option String → String
text_of none = "play"
text_of (some task) = task

-- Datadog refuses what is sent; a message is written as the name of its task.
abbrev host : Host
host = record {
  timer_log = some "/log/times";
  initialize = λ key. ok tt;
  send_tasks = λ ms. raised other_error;
  send_play = λ m. ok tt;
  exists = λ path. false;
  make_dirs = λ path. ok tt;
  open_log = λ path. ok tt;
  dump = λ m. (ok tt, text_of m.task);
  mktime = λ time. ok time;
  isoformat = λ time. "t";
  strftime = λ time pattern. if pattern == "%" then raised value_error else ok pattern;
  formats = λ text. if text == "é" then raised value_error else ok tt;
}

abbrev notices : List Notice
notices = on_task_start "a" 5 6 ∷ on_task_start "b" 9 9 ∷ on_task_start "a" 11 12 ∷ []

test_clean : clean_tag_value "Git | Clone It" ≡ "git.clone-it"
test_clean = refl

run_unstarted :
    notify_all (on_play "/x/play.yml" 4 ∷ []) (fresh true)
    ≡ ok (record {
      stats = [];
      current_task = none;
      playbook_name = some "play";
      playbook_timestamp = some (started 4);
      play = some "/x/play.yml";
      datadog = true;
    })
unfolding program
run_unstarted = refl

run_no_play : playbook_on_play_start 4 (fresh true) ≡ raised attribute_error
run_no_play = refl

run_unstopped : durations (("a", started 4) ∷ []) ≡ raised type_error
unfolding program
run_unstopped = refl

run_init : init host (some "") ≡ ok (fresh false)
unfolding program
run_init = refl

-- The clock may be set back, and so may a duration be negative.
run_set_back :
    durations (("a", record { start = 4; end = some 3 }) ∷ []) ≡ ok (("a", negsuc 0) ∷ [])
unfolding program
run_set_back = refl

abbrev ended : ℕ → ℕ → Timestamp
ended start end = record { start = start; end = some end }

stop_all-AddsUpTo_example :
    (self : Plugin) × (notify_all (on_play "/x/play.yml" 4 ∷ notices) (fresh true) ≡ ok self)
    × (done : Plugin) × (timestamp : Timestamp) × (stop_all 20 21 self ≡ ok (done, timestamp))
    × (timed : List (String × ℤ)) × (durations done.stats ≡ ok timed)
    × (total : ℕ) × AddsUpTo total timed
    × (4 + total ≤ 20)
stop_all-AddsUpTo_example =
    stop_all-AddsUpTo 4 "/x/play.yml" notices true 20 21
      (omega arith, omega arith, (omega arith, omega arith, (omega arith, omega arith, tt)))
      (omega arith) (omega arith)

abbrev two : List (String × Timestamp)
two = ("a", ended 6 9) ∷ ("b", ended 9 20) ∷ []

logging_log_play-Descending_example :
    (timed : List (String × ℤ)) × (durations two ≡ ok timed)
    × (shown : List (String × ℤ)) × (hidden : List (String × ℤ)) × (logging_log_play host
          (some "play")
          (ended 4 21)
          two
          (tt {0})
        ≡ (
          ok tt,
          tt,
          map (line_call host) shown
              ++ info (finished_line (some "play") (some 21) 2 (pos 17)) ∷ [],
        ))
    × Perm (shown ++ hidden) timed
    × Descending (shown ++ hidden)
    × ((length shown ≡ 10) ⊎ ((length shown < 10) × (hidden ≡ [])))
logging_log_play-Descending_example =
    logging_log_play-Descending host (some "play") (ended 4 21) two (21, refl, omega arith)
      ((9, refl, omega arith), ((20, refl, omega arith), tt)) (refl, (refl, tt))

-- A name that cannot be formatted ends the callback, as nothing catches what is raised.
run_unformatted :
    (logging_log_play host (some "play") (ended 4 21) (("é", ended 6 9) ∷ []) (tt {0})).0
    ≡ raised value_error
unfolding program
run_unformatted = refl

run_logging :
    (logging_log_play host (some "play") (ended 4 21) two (tt {0})).2
    ≡ info (task_line "b" (pos 11))
      ∷ info (task_line "a" (pos 3))
      ∷ info (finished_line (some "play") (some 21) 2 (pos 17))
      ∷ []
unfolding program
run_logging = refl

abbrev message : Option String → ℕ → Message
message task d = record {
  task = task;
  playbook = some "play";
  started_at = "t";
  ended_at = "t";
  duration = pos d;
}

abbrev loads : String → Option Message
loads line =
    if line == "a"
    then some (message (some "a") 3)
    else if line == "b"
    then some (message (some "b") 11)
    else some (message none 17)

json_log_play-IsLogged_example :
    let (result, s, calls) = json_log_play host (some "play") (ended 4 21) two (tt {0}) in
    (result ≡ ok tt)
    × (map loads (lines_of (content "/log/times" calls))
        ≡ map some (told_all host.isoformat (some "play") (ended 4 21) two))
json_log_play-IsLogged_example =
    json_log_play-IsLogged host loads "/log/times" "/log/times" (some "play") (ended 4 21) two refl
      refl (λ path. refl) (λ path. refl) (21, refl, omega arith)
      ((9, refl, omega arith), ((20, refl, omega arith), tt))
      ((refl, (refl, refl), refl), ((refl, (refl, refl), refl), ((refl, (refl, refl), refl), tt)))
