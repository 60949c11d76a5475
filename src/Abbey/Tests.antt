-- ===== src/Abbey/Tests.antt =====
-- The theorems on `poll_sqs_ansible` at runs of two playbooks.
use configuration.Base.{ℕ, ◌≤◌, ◌≡◌, refl, true, false, none, some, List, [], ◌∷◌, arith, ok, All}
use configuration.Abbey.Poll.{
  Event, MsgInfo, SqsMessage, State, start_state, TaskReport, polling, finished, receive,
  sort_infos, show, show_ok, show_stats, display, Round, poll, num_playbooks,
}
use configuration.Abbey.Poll.Order.{parsed}
use configuration.Abbey.Poll.Finish.{IsReady, IsQuiet, completions, poll-finished}
use configuration.Abbey.Poll.Enough.{received, poll_finished-completions}

program : Unit {0}
unfolding receive sort_infos show show_ok show_stats display poll
program = tt

abbrev blank : Event
blank = record {
  ts = some 1;
  delta = none;
  prefix = some "p";
  start = none;
  task = none;
  ok_ = none;
  failure = false;
  stats = false;
}

abbrev task_event : Event
task_event = record blank { ts = some 3; task = some "install" }

abbrev ok_event : Event
ok_event = record blank {
  ts = some 5;
  delta = some 2;
  ok_ = some (record {
    invocation = some (record { text = "apt"; module_name = some "apt" });
    changed = some true;
  });
}

abbrev stats_event : ℕ → Event
stats_event ts = record blank { ts = some ts; stats = true }

abbrev sent_at : ℕ → Event → SqsMessage
sent_at time event = record { body = some event; sent = time; received = time }

-- The queue hands the messages out in another order, and one that is no JSON.
abbrev handed_out : List SqsMessage
handed_out =
    sent_at 10 ok_event
    ∷ sent_at 11 (stats_event 9)
    ∷ sent_at 12 task_event
    ∷ record { body = none; sent = 12; received = 12 }
    ∷ sent_at 13 (stats_event 7)
    ∷ []

abbrev quiet : Round
quiet = record { messages = []; now = 30 }

abbrev busy : Round
busy = record { messages = handed_out; now = 30 }

abbrev reports : List TaskReport
reports =
    record {
      task = some "install";
      invocation = record { text = "apt"; module_name = some "apt" };
      delta = 2;
    }
    ∷ []

run_poll : poll false 10 (busy ∷ quiet ∷ quiet ∷ quiet ∷ []) start_state ≡ ok (finished 9 reports)
unfolding program
run_poll = refl

-- The same messages received by 13 are ready.
IsReady-All : All (IsReady 13) (parsed handed_out)
IsReady-All = (
  (omega arith, refl, refl),
  ((omega arith, refl, refl), ((omega arith, refl, refl), ((omega arith, refl, refl), tt))),
)

IsQuiet-All : All (IsQuiet 10 13) (quiet ∷ quiet ∷ quiet ∷ [])
IsQuiet-All = ((refl, omega arith), ((refl, omega arith), ((refl, omega arith), tt)))

poll-finished_example :
    (ts : ℕ) × (report : List TaskReport) × (poll false 10
        (busy ∷ quiet ∷ quiet ∷ quiet ∷ [])
        start_state
      ≡ ok (finished ts report))
poll-finished_example =
    poll-finished false 10 13 handed_out 30 (quiet ∷ quiet ∷ quiet ∷ []) IsReady-All (omega arith)
      (omega arith) IsQuiet-All (omega arith)

poll_finished-completions_example :
    num_playbooks ≤ completions (received (busy ∷ quiet ∷ quiet ∷ quiet ∷ []))
poll_finished-completions_example =
    poll_finished-completions false 10 (busy ∷ quiet ∷ quiet ∷ quiet ∷ []) 9 reports run_poll

abbrev info : Event → MsgInfo
info event = record { msg = event; sent_ts = 10; recv_ts = 10 }

abbrev two_waiting : State
two_waiting = record start_state { buf = info (stats_event 9) ∷ info task_event ∷ [] }

abbrev one_waiting : State
one_waiting = record start_state {
  buf = info (stats_event 9) ∷ [];
  to_disp = some (info task_event);
  last_task = some "install";
}

run_display : display false two_waiting ≡ ok (polling one_waiting)
unfolding program
run_display = refl

abbrev stuck : State
stuck = record start_state { buf = info (record blank { ts = none }) ∷ [] }
