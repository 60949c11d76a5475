-- ===== src/Callbacks/Timing/Elapsed.antt =====
-- The clock, the tasks and the play while Ansible runs.
use configuration.Base.{
  ℕ, ◌+◌, ◌≤◌, Bool, Option, none, some, ◌≡◌, refl, ◌⊎◌, inl, inr, List, [], ◌∷◌, String, string_eq,
  Result, ok, Dict, put, arith, basename, root_of,
}
use configuration.Callbacks.Timing.Stamp.{ℤ, Timestamp, started, stop, durations}
use configuration.Callbacks.Timing.Plugin.{
  Plugin, fresh, stop_task, stop_all, Notice, on_play, on_task_start, notify, notify_all,
  playbook_on_task_start,
}
use configuration.Callbacks.Timing.Stopped.{
  AllStopped, OneRuns, spent, spent-put, put-OneRuns, lookup-OneRuns, AddsUpTo,
  durations-AllStopped, IsStopped,
}

-- The clock is never set back.
abbrev pub InOrder : ℕ → List Notice → Type 0
InOrder before [] = Unit
InOrder before (on_play play now ∷ notices) = (before ≤ now) × InOrder now notices
InOrder before (on_task_start name stopped now ∷ notices) =
    (before ≤ stopped) × (stopped ≤ now) × InOrder now notices

abbrev pub clock_after : ℕ → List Notice → ℕ
clock_after before [] = before
clock_after before (on_play play now ∷ notices) = clock_after now notices
clock_after before (on_task_start name stopped now ∷ notices) = clock_after now notices

-- What the stopped tasks took together fits between the beginning and the start of the task that
-- runs, or a given time if none does.
abbrev pub Timed : ℕ → ℕ → Option String → Dict String Timestamp → Type 0
Timed begin now none stats = AllStopped stats × (begin + spent stats ≤ now)
Timed begin now (some name) stats =
    (start : ℕ) × OneRuns name start stats × (begin + spent stats ≤ start) × (start ≤ now)

abbrev HasPlay : ℕ → Option String → Option Timestamp → Type 0
HasPlay now name timestamp =
    (n : String) × (t : Timestamp) × (name ≡ some n) × (timestamp ≡ some t) × (t.start ≤ now)

abbrev Running : ℕ → ℕ → Plugin → Type 0
Running begin now self =
    Timed begin now self.current_task self.stats
    × HasPlay now self.playbook_name self.playbook_timestamp

pub stop_task-Timed :
    (begin before now : ℕ) (current : Option String) (stats : Dict String Timestamp)
    → Timed begin before current stats
    → before ≤ now
    → (stopped : Dict String Timestamp) × (stop_task current now stats ≡ ok stopped)
      × AllStopped stopped
      × (begin + spent stopped ≤ now)
unfolding stop_task
stop_task-Timed begin before now none stats (h, fits) le = (stats, refl, h, omega (arith, fits, le))
stop_task-Timed begin before now (some name) stats (start, one, fits, early) le =
    let (t, found, same, rest) =
      lookup-OneRuns name start now stats (omega (arith, early, le)) one in
    (
      put name (stop now t) stats,
      (rw found refl),
      rest,
      (omega (arith, spent-put name (stop now t) stats, same, fits, early, le)),
    )

HasPlay-later :
    (before now : ℕ) (name : Option String) (timestamp : Option Timestamp)
    → HasPlay before name timestamp
    → before ≤ now
    → HasPlay now name timestamp
HasPlay-later before now name timestamp (n, t, e, e', h) le = (n, t, e, e', omega (arith, h, le))

Timed-later :
    (begin before now : ℕ) (current : Option String) (stats : Dict String Timestamp)
    → Timed begin before current stats
    → before ≤ now
    → Timed begin now current stats
Timed-later begin before now none stats (h, fits) le = (h, omega (arith, fits, le))
Timed-later begin before now (some name) stats (start, one, fits, early) le =
    (start, one, fits, omega (arith, early, le))

Timed-start :
    (begin stopped now : ℕ) (name : String) (stats : Dict String Timestamp)
    → AllStopped stats
    → begin + spent stats ≤ stopped
    → stopped ≤ now
    → Timed begin now (some name) (put name (started now) stats)
Timed-start begin stopped now name stats h fits le = (
  now,
  put-OneRuns name now stats h,
  (omega (arith, spent-put name (started now) stats, fits, le)),
  (omega arith),
)

-- A notice after which the plugin goes on with all times in their order.
abbrev GoesOn : ℕ → ℕ → Result Plugin → Type 0
GoesOn begin now result = (self : Plugin) × (result ≡ ok self) × Running begin now self

abbrev time_of : Notice → ℕ
time_of (on_play play now) = now
time_of (on_task_start name stopped now) = now

notify-GoesOn :
    (begin before : ℕ) (notice : Notice) (self : Plugin)
    → InOrder before (notice ∷ [])
    → Timed begin before self.current_task self.stats
    → (HasPlay before self.playbook_name self.playbook_timestamp
        ⊎ ((p : String) × (n : ℕ) × (notice ≡ on_play p n)))
    → GoesOn begin (time_of notice) (notify notice self)
unfolding notify playbook_on_task_start
notify-GoesOn begin before (on_play play now) self (le, u) h p = (
  _,
  refl,
  (
    Timed-later begin before now self.current_task self.stats h le,
    (root_of (basename play), started now, refl, refl, omega arith),
  ),
)
notify-GoesOn begin before (on_task_start name stopped now) self (le, le', u) h (inl p) =
    let (stats, e, all, fits) =
      stop_task-Timed begin before stopped self.current_task self.stats h le in
    (
      record self { current_task = some name; stats = put name (started now) stats },
      (rw e refl),
      (
        Timed-start begin stopped now name stats all fits le',
        HasPlay-later before now self.playbook_name self.playbook_timestamp p
            (omega (arith, le, le')),
      ),
    )
notify-GoesOn begin before (on_task_start name stopped now) self o h (inr (p, n, e)) = absurd (cc e)

notify_all-GoesOn :
    (begin before : ℕ) (notices : List Notice) (self : Plugin)
    → InOrder before notices
    → Running begin before self
    → GoesOn begin (clock_after before notices) (notify_all notices self)
unfolding notify_all
notify_all-GoesOn begin before [] self o r = (self, refl, r)
notify_all-GoesOn begin before (on_play play now ∷ notices) self (le, o) (h, p) =
    let (next, e, r) = notify-GoesOn begin before (on_play play now) self (le, tt) h (inl p) in
    rw e (notify_all-GoesOn begin now notices next o r)
notify_all-GoesOn begin before (on_task_start name stopped now ∷ notices) self (le, le', o) (h, p) =
    let (next, e, r) =
      notify-GoesOn begin before (on_task_start name stopped now) self (le, le', tt) h (inl p) in
    rw e (notify_all-GoesOn begin now notices next o r)

-- After a play has started, everything has been stopped when `playbook_on_stats` goes on to its
-- loop.
pub stop_all-AllStopped :
    (begin : ℕ) (play : String) (notices : List Notice) (datadog : Bool) (stopped now : ℕ)
    → InOrder begin (on_play play begin ∷ notices)
    → clock_after begin notices ≤ stopped
    → stopped ≤ now
    → (self : Plugin) × (notify_all (on_play play begin ∷ notices) (fresh datadog) ≡ ok self)
      × (done : Plugin) × (timestamp : Timestamp) × (stop_all stopped now self
          ≡ ok (done, timestamp))
      × AllStopped done.stats
      × IsStopped timestamp
      × (name : String) × (done.playbook_name ≡ some name)
      × (begin + spent done.stats ≤ stopped)
unfolding notify_all stop_all
stop_all-AllStopped begin play notices datadog stopped now (le, o) late later =
    let (first, e, r) =
      notify-GoesOn begin begin (on_play play begin) (fresh datadog) (le, tt) (tt, omega arith)
        (inr (play, begin, refl)) in
    let (self, e', (h, (name, t, named, is_t, early))) =
      notify_all-GoesOn begin begin notices first o r in
    let (stats, e'', all, fits) =
      stop_task-Timed begin (clock_after begin notices) stopped self.current_task self.stats h
        late in
    (
      self,
      (rw e e'),
      record self { stats = stats; playbook_timestamp = some (stop now t) },
      stop now t,
      (rw (e'', is_t) refl),
      all,
      (now, refl, omega (arith, early, late, later)),
      name,
      named,
      fits,
    )

pub stop_all-AddsUpTo :
    (begin : ℕ) (play : String) (notices : List Notice) (datadog : Bool) (stopped now : ℕ)
    → InOrder begin notices
    → clock_after begin notices ≤ stopped
    → stopped ≤ now
    → (self : Plugin) × (notify_all (on_play play begin ∷ notices) (fresh datadog) ≡ ok self)
      × (done : Plugin) × (timestamp : Timestamp) × (stop_all stopped now self
          ≡ ok (done, timestamp))
      × (timed : List (String × ℤ)) × (durations done.stats ≡ ok timed)
      × (total : ℕ) × AddsUpTo total timed
      × (begin + total ≤ stopped)
stop_all-AddsUpTo begin play notices datadog stopped now o late later =
    let (self, e, done, timestamp, e', all, is_stopped, name, named, fits) =
      stop_all-AllStopped begin play notices datadog stopped now (omega arith, o) late later in
    let (timed, e'', adds) = durations-AllStopped done.stats all in
    (self, e, done, timestamp, e', timed, e'', spent done.stats, adds, fits)
