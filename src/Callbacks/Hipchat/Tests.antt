-- ===== src/Callbacks/Hipchat/Tests.antt =====
-- Runs of playbooks/callback_plugins/hipchat_plugin.py, and its theorems at a playbook of two tasks.
use configuration.Base.{
  inr, ℕ, ◌/◌, ◌≡◌, refl, Bool, true, false, Option, none, some, List, [], ◌∷◌, String, ◌==◌,
  string_eq, ◌||◌, if◌then◌else◌, Result, ok, raised, value_error, attribute_error, other_error,
  Dict,
}
use configuration.Callbacks.Hipchat.Plugin.{
  Plugin, Call, message_room, Host, TaskOutcome, init, total_of, delta_of, send_hipchat,
  flush_last_task, process_ok, process_start, process_any, process_failed, Notice, on_ok, on_failed,
  on_task_start, notify, notify_all, enabled_plugin,
}
use configuration.Callbacks.Hipchat.Stats.{
  stats_of, host_texts, table_rows, playbook_on_play_start, playbook_on_stats,
}
use configuration.Callbacks.Hipchat.Rows.{told}
use configuration.Callbacks.Hipchat.Reported.{AllReadable, notify_all-report}
use configuration.Callbacks.Hipchat.Ended.{report_call, playbook_on_stats-raised}

program : Unit {0}
unfolding init total_of delta_of send_hipchat flush_last_task process_ok process_start process_any
    process_failed notify notify_all host_texts table_rows playbook_on_play_start playbook_on_stats
program = tt

abbrev float : String → Result ℕ
float s =
    if s == "0" || s == "00"
    then ok 0
    else if s == "1"
    then ok 1000000
    else if s == "02.5"
    then ok 2500000
    else raised value_error

-- HipChat refuses every message.
abbrev host : Host
host = record { send = λ call. raised other_error; float = float; tenths = λ n. n / 100000 }

-- An hour is taken for twenty minutes.
run_hour : total_of host "1:1:02.5" ≡ ok 1262500000
unfolding program
run_hour = refl

run_days : total_of host "1 day, 1:1:02.5" ≡ raised value_error
unfolding program
run_days = refl

abbrev environ : Dict String String
environ = ("HIPCHAT_TOKEN", "t") ∷ ("HIPCHAT_CONDENSED", "True") ∷ []

-- The report is condensed unless the variable is set, whatever it is set to.
run_condensed : (enabled_plugin environ 0).condensed_task_report ≡ false
run_condensed = refl

run_missing : init false true environ 0 ≡ raised other_error
unfolding program
run_missing = refl

abbrev done : Option Bool → Option String → TaskOutcome
done changed delta = record {
  module_name = some "apt";
  changed = changed;
  delta = delta;
  msg = some "no";
}

abbrev notices : List (Notice × ℕ)
notices =
    (on_task_start "a", 1)
    ∷ (on_ok (done (some false) (some "0:00:02.5")), 2)
    ∷ (on_ok (done (some true) none), 3)
    ∷ (on_failed (done none none), 4)
    ∷ (on_ok (done none none), 5)
    ∷ (on_task_start "b", 6)
    ∷ (on_task_start "", 7)
    ∷ []

-- What is told of a task after a failure on one of its hosts is lost.
run_report :
    (told host notices).1
    ≡ record { changed = true; count = 2; delta = 25; task = "a" }
      ∷ record { changed = false; count = 0; delta = 0; task = "b" }
      ∷ []
unfolding program
run_report = refl

readable : AllReadable host notices
unfolding program
readable = (tt, (inr ("0", "00", "02.5", refl, refl, refl, refl), (tt, (tt, (tt, (tt, (tt, tt)))))))

notify_all-report_example :
    (self : Plugin) × (calls : List Call) × (notify_all host notices (enabled_plugin environ 0)
      ≡ (ok tt, self, calls))
    × ((flush_last_task host self).task_report ≡ (told host notices).1)
notify_all-report_example = notify_all-report host environ 0 notices refl readable (λ call. refl)

abbrev counts : String → Dict String ℕ
counts name = ("ok", 3) ∷ ("changed", 0) ∷ ("unreachable", 0) ∷ ("failures", 1) ∷ []

run_one_host :
    host_texts "p" (stats_of counts) ("h" ∷ [])
    ≡ ok ("<b>p</b>: <i>h</i> - <b>ok</b> - 3 <b>failures</b> - 1 " ∷ [])
unfolding program
run_one_host = refl

abbrev table : String → List (List String) → String
table column rows = column

run_start :
    (playbook_on_play_start host
      (record { filename = "/p/edx.yml"; only_tags = "a" ∷ "b" ∷ []; subset = [] })
      5
      (enabled_plugin environ 0)).2
    ≡ message_room "ansible" "ansible"
        "<b></b>: Starting ansible run for play <b><i>edx</i></b> with tags <b><i>a,b</i></b>" ""
        "html"
      ∷ []
unfolding program
run_start = refl

playbook_on_stats-raised_example :
    let (result, end, calls) =
      playbook_on_stats host table
        (stats_of counts)
        ("g" ∷ "h" ∷ [])
        9
        (enabled_plugin environ 0) in
    (result ≡ raised attribute_error)
    × (calls ≡ report_call host table (enabled_plugin environ 0) ∷ [])
playbook_on_stats-raised_example =
    playbook_on_stats-raised host table counts "g" "h" [] "<b>ok</b> - 3 <b>failures</b> - 1 " 9
      (enabled_plugin environ 0) refl (λ call. refl) refl
