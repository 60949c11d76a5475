-- ===== src/Callbacks/Hipchat/Rows.antt =====
-- The rows that the report of hipchat_plugin.py is to have, by what Ansible tells it.
use mathlib.Core.List.{append_assoc}
use configuration.Base.{
  ap, inl, inr, ◌⊎◌, Option, none, some, pieces, ◌*◌, ℕ, suc, ◌+◌, Bool, true, false, not, ◌||◌,
  ◌≡◌, refl, List, [], ◌∷◌, ◌++◌, String, if◌then◌else◌, is_empty, length, Result, ok, raised,
  arith, string_eq,
}
use configuration.Callbacks.Hipchat.Plugin.{
  Row, Plugin, Host, TaskOutcome, has_text, marks_change, row_if, text_or, delta_of, total_of,
  is_colon, flush_last_task, mark_changed, count_result, Notice, on_ok, on_failed, on_task_start,
  on_other, is_reported,
}

abbrev value_or : Result ℕ → ℕ
value_or (ok n) = n
value_or (raised e) = 0

abbrev pub read : Host → String → ℕ
read host s = value_or (host.float s)

abbrev counted_parts : Host → List String → ℕ
counted_parts host (hour ∷ minute ∷ sec ∷ []) =
    read host hour * 1200 + read host minute * 60 + read host sec
counted_parts host parts = 0

-- What counts of a duration "h:mm:ss": 60 seconds for a minute, but 1200 for an hour.
abbrev pub counted : Host → Option String → ℕ
counted host none = 0
counted host (some delta) = counted_parts host (pieces is_colon delta)

abbrev IsNumber : Host → String → Type 0
IsNumber host s = host.float s ≡ ok (read host s)

-- There is no duration, or an empty one, or three numbers with colons between them.
abbrev pub IsTimed : Host → Option String → Type 0
IsTimed host none = Unit
IsTimed host (some delta) =
    (delta ≡ "")
    ⊎ ((hour : String) × (minute : String) × (sec : String) × (pieces is_colon delta
          ≡ hour ∷ minute ∷ sec ∷ [])
        × IsNumber host hour
        × IsNumber host minute
        × IsNumber host sec)

abbrev pub Readable : Host → Notice → Type 0
Readable host (on_ok res) = IsTimed host res.delta
Readable host notice = Unit

total_of-counted :
    (host : Host) (delta hour minute sec : String)
    → pieces is_colon delta ≡ hour ∷ minute ∷ sec ∷ []
    → IsNumber host hour
    → IsNumber host minute
    → IsNumber host sec
    → total_of host delta ≡ ok (counted_parts host (pieces is_colon delta))
unfolding total_of
total_of-counted host delta hour minute sec parts h m s = rw (parts, h, m, s) refl

pub delta_of-counted :
    (host : Host) (delta : Option String)
    → IsTimed host delta
    → delta_of host delta ≡ ok (counted host delta)
unfolding delta_of
delta_of-counted host none t = refl
delta_of-counted host (some String.[]) t = refl
delta_of-counted host (some (String.◌∷◌ c s)) (inl empty) = absurd (cc (ap is_empty empty))
delta_of-counted host (some (String.◌∷◌ c s)) (inr (hour, minute, sec, parts, h, m, n)) =
    total_of-counted host (String.◌∷◌ c s) hour minute sec parts h m n

module _ (host : Host) where
  -- What the results that follow a task's start say of it: whether one of them changed something,
  -- how many there are and how long they took.
  abbrev pub changed_by : List TaskOutcome → Bool
  changed_by [] = false
  changed_by (res ∷ results) = changed_by results || marks_change res.changed

  abbrev pub taken_by : List TaskOutcome → ℕ
  taken_by [] = 0
  taken_by (res ∷ results) = counted host res.delta + taken_by results

  abbrev pub row_of : String → List TaskOutcome → Row
  row_of name results = record {
    changed = changed_by results;
    count = length results;
    delta = host.tenths (taken_by results);
    task = name;
  }

  abbrev pub rows_if : String → List TaskOutcome → List Row → List Row
  rows_if name results rows = if is_empty name then rows else row_of name results ∷ rows

  -- The results up to the first notice of another kind, and the rows of the tasks that start behind
  -- them, with one notice more.
  abbrev pub told_before : Notice → List TaskOutcome × List Row → List TaskOutcome × List Row
  told_before (on_ok res) (results, rows) =
      if is_reported res.module_name then (res ∷ results, rows) else (results, rows)
  told_before (on_failed res) (results, rows) = ([], rows)
  told_before on_other (results, rows) = ([], rows)
  told_before (on_task_start name) (results, rows) = ([], rows_if name results rows)

  abbrev pub told : List (Notice × ℕ) → List TaskOutcome × List Row
  told [] = ([], [])
  told ((notice, now) ∷ notices) = told_before notice (told notices)

  abbrev pub row_with : Bool → ℕ → ℕ → String → Row
  row_with changed count total task = record {
    changed = changed;
    count = count;
    delta = host.tenths total;
    task = task;
  }

  -- The report once the last task has had some results more.
  abbrev pub finish : Plugin → List TaskOutcome → List Row
  finish self results =
      row_if (has_text self.last_task)
        (row_with (changed_by results || self.last_task_changed)
          (self.last_task_count + length results) (self.last_task_delta + taken_by results)
          (text_or self.last_task))
        self.task_report

  pub flush-finish : (self : Plugin) → (flush_last_task host self).task_report ≡ finish self []
  unfolding flush_last_task
  flush-finish self =
      let count : self.last_task_count + 0 ≡ self.last_task_count = omega arith in
      let total : self.last_task_delta + 0 ≡ self.last_task_delta = omega arith in
      rw (count, total) refl

  pub row_if-not :
      (b : Bool) (row : Row) (report rows : List Row)
      → row_if (not b) row report ++ rows ≡ report ++ (if b then rows else row ∷ rows)
  row_if-not true row report rows = refl
  row_if-not false row report rows = append_assoc report (row ∷ []) rows

  pub or_false : (b : Bool) → (b || false) ≡ b
  or_false true = refl
  or_false false = refl

  or_assoc : (a b c : Bool) → (a || (b || c)) ≡ ((a || b) || c)
  or_assoc true b c = refl
  or_assoc false b c = refl

  pub finish-count_result :
      (res : TaskOutcome) (results : List TaskOutcome) (self : Plugin)
      → finish
          (count_result host (counted host res.delta) (mark_changed host res.changed self))
          results
        ≡ finish self (res ∷ results)
  finish-count_result res results self =
      let total = counted host res.delta in
      let count : self.last_task_count + 1 + length results
          ≡ self.last_task_count + suc (length results) =
        omega arith in
      let time : self.last_task_delta + total + taken_by results
          ≡ self.last_task_delta + (total + taken_by results) =
        omega arith in
      rw
        (
          or_assoc (changed_by results) (marks_change res.changed) self.last_task_changed,
          count,
          time,
        )
        refl
