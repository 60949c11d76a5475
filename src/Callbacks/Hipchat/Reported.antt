-- ===== src/Callbacks/Hipchat/Reported.antt =====
-- The tasks that hipchat_plugin.py reports.
use mathlib.Core.Path.{subst}
use mathlib.Core.List.{append-nil}
use configuration.Base.{
  ℕ, ◌+◌, true, false, not, ◌||◌, Option, none, some, ◌≡◌, refl, sym, ◌∙◌, ap, List, [], ◌∷◌, ◌++◌,
  String, is_empty, length, Result, ok, raised, arith, Bool-cases, inl, inr, Dict, has_key,
  string_eq,
}
use configuration.Base.Script.{Run, from, assign, handle, ◌>>◌}
use configuration.Base.Script.Calls.{when-true}
use configuration.Base.Script.Caught.{IsCaught}
use configuration.Callbacks.Hipchat.Plugin.{
  Row, Plugin, Call, Host, TaskOutcome, has_text, row_if, room_call, send_hipchat, flush_last_task,
  mark_changed, count_result, restart, add_or_flush, process_ok, process_start, process_any,
  process_failed, tell_error, failure_text, Notice, on_ok, on_failed, on_task_start, on_other,
  is_reported, handle_notice, notify, notify_all, enabled_plugin,
}
use configuration.Callbacks.Hipchat.Rows.{
  counted, delta_of-counted, Readable, changed_by, taken_by, row_of, rows_if, told_before, told,
  finish, flush-finish, row_if-not, or_false, finish-count_result,
}

module _ (host : Host) where
  -- A run that returns, with the report that a notice more makes of what follows.
  record Tells (self : Plugin) (notice : Notice) (r : Run Plugin Call (Unit {0})) : Type 0 where
    next : Plugin
    calls : List Call
    returns : r ≡ (ok tt, next, calls)
    stays : next.enabled ≡ true
    tells :
        (results : List TaskOutcome) (rows : List Row)
        → finish host next results ++ rows
          ≡ finish host self (told_before host notice (results, rows)).0
            ++ (told_before host notice (results, rows)).1

  handled :
      (answer : Result (Unit {0})) (call : Call) (self : Plugin)
      → IsCaught answer
      → handle (λ e. from (ok tt)) (answer, self, call ∷ []) ≡ (ok tt, self, call ∷ [])
  handled (ok u) call self h = refl
  handled (raised e) call self h = rw h refl

  pub send_hipchat-ok :
      (message color format : String) (self : Plugin)
      → ((call : Call) → IsCaught (host.send call))
      → send_hipchat host message color format self
        ≡ (ok tt, self, room_call host message color format self ∷ [])
  unfolding send_hipchat
  send_hipchat-ok message color format self h =
      let call = room_call host message color format self in
      handled (host.send call) call self (h call)

  tell_error-ok :
      (msg : Option String) (self : Plugin)
      → ((call : Call) → IsCaught (host.send call))
      → (calls : List Call) × (tell_error host msg self ≡ (ok tt, self, calls))
  tell_error-ok none self h = ([], refl)
  tell_error-ok (some msg) self h =
      (_, send_hipchat-ok (failure_text host self.hipchat_msg_prefix msg) "red" "text" self h)

  -- A notice that ends the task.
  process_any-tells :
      (self : Plugin) (now : ℕ) (results : List TaskOutcome)
      → finish host (process_any host now self) results ≡ finish host self []
  unfolding process_any flush_last_task
  process_any-tells self now results = flush-finish host self

  process_start-tells :
      (self : Plugin) (name : String) (now : ℕ) (results : List TaskOutcome) (rows : List Row)
      → finish host (process_start host name now self) results ++ rows
        ≡ finish host self [] ++ rows_if host name results rows
  unfolding process_start flush_last_task
  process_start-tells self name now results rows =
      let none_yet : (changed_by host results || false) ≡ changed_by host results =
        or_false host (changed_by host results) in
      let count : 0 + length results ≡ length results = omega arith in
      let total : 0 + taken_by host results ≡ taken_by host results = omega arith in
      let report = (flush_last_task host self).task_report in
      let row : finish host (process_start host name now self) results
          ≡ row_if (not (is_empty name)) (row_of host name results) report =
        rw (none_yet, count, total) refl in
      ap (λ front. front ++ rows) row
      ∙ (row_if-not host (is_empty name) (row_of host name results) report rows
          ∙ ap (λ front. front ++ rows_if host name results rows) (flush-finish host self))

  process_ok-idle :
      (self : Plugin) (res : TaskOutcome) (now : ℕ)
      → has_text self.last_task ≡ false
      → process_ok host res now self ≡ (ok tt, restart host now (flush_last_task host self), [])
  unfolding process_ok
  process_ok-idle self res now idle =
      subst
        (λ b.
          (add_or_flush host res b >> assign (restart host now)) self
          ≡ (ok tt, restart host now (flush_last_task host self), []))
        (sym idle) refl

  process_ok-Tells :
      (self : Plugin) (res : TaskOutcome) (now : ℕ)
      → self.enabled ≡ true
      → Readable host (on_ok res)
      → is_reported res.module_name ≡ true
      → Tells self (on_ok res) (process_ok host res now self)
  unfolding process_ok flush_last_task
  process_ok-Tells self res now on readable sent = elim (Bool-cases (has_text self.last_task)) [
    | inl runs ↦ record {
      next =
          restart host now
            (count_result host (counted host res.delta) (mark_changed host res.changed self));
      calls = [];
      returns = rw (runs, delta_of-counted host res.delta readable) refl;
      stays = on;
      tells = λ results rows.
          rw sent (ap (λ front. front ++ rows) (finish-count_result host res results self));
    }
    | inr idle ↦ record {
      next = restart host now (flush_last_task host self);
      calls = [];
      returns = process_ok-idle self res now idle;
      stays = on;
      tells = λ results rows. rw (sent, idle) refl;
    }
  ]

  handle_notice-Tells :
      (self : Plugin) (notice : Notice) (now : ℕ)
      → self.enabled ≡ true
      → Readable host notice
      → ((call : Call) → IsCaught (host.send call))
      → Tells self notice (handle_notice host notice now self)
  unfolding process_failed process_start process_any flush_last_task
  handle_notice-Tells self (on_ok res) now on readable h =
      elim (Bool-cases (is_reported res.module_name)) [
        | inl sent ↦
            subst (λ r. Tells self (on_ok res) r)
              (sym (when-true (process_ok host res now) self (is_reported res.module_name) sent))
              (process_ok-Tells self res now on readable sent)
        | inr other ↦ record {
          next = self;
          calls = [];
          returns = rw other refl;
          stays = on;
          tells = λ results rows. rw other refl;
        }
      ]
  handle_notice-Tells self (on_failed res) now on readable h =
      let next = process_any host now self in
      let (calls, e) = tell_error-ok res.msg next h in
      record {
        next = next;
        calls = calls;
        returns = rw e refl;
        stays = on;
        tells = λ results rows. ap (λ front. front ++ rows) (process_any-tells self now results);
      }
  handle_notice-Tells self (on_task_start name) now on readable h = record {
    next = process_start host name now self;
    calls = [];
    returns = refl;
    stays = on;
    tells = λ results rows. process_start-tells self name now results rows;
  }
  handle_notice-Tells self on_other now on readable h = record {
    next = process_any host now self;
    calls = [];
    returns = refl;
    stays = on;
    tells = λ results rows. ap (λ front. front ++ rows) (process_any-tells self now results);
  }

  abbrev pub AllReadable : List (Notice × ℕ) → Type 0
  AllReadable [] = Unit
  AllReadable ((notice, now) ∷ notices) = Readable host notice × AllReadable notices

  notify-enabled :
      (notice : Notice) (now : ℕ) (self : Plugin)
      → self.enabled ≡ true
      → notify host notice now self ≡ handle_notice host notice now self
  unfolding notify
  notify-enabled notice now self on = when-true (handle_notice host notice now) self self.enabled on

  notify_all-finish :
      (notices : List (Notice × ℕ)) (self : Plugin)
      → self.enabled ≡ true
      → AllReadable notices
      → ((call : Call) → IsCaught (host.send call))
      → (next : Plugin) × (calls : List Call) × (notify_all host notices self
          ≡ (ok tt, next, calls))
        × (finish host next [] ≡ finish host self (told host notices).0 ++ (told host notices).1)
  unfolding notify_all
  notify_all-finish [] self on r h = (self, [], refl, sym (append-nil _))
  notify_all-finish ((notice, now) ∷ notices) self on (r, rs) h =
      let first = handle_notice-Tells self notice now on r h in
      let (next, calls, e, rows) = notify_all-finish notices first.next first.stays rs h in
      (
        next,
        first.calls ++ calls,
        rw (notify-enabled notice now self on, first.returns, e) refl,
        rows ∙ first.tells (told host notices).0 (told host notices).1,
      )

pub notify_all-report :
    (host : Host) (environ : Dict String String) (begin : ℕ) (notices : List (Notice × ℕ))
    → has_key "HIPCHAT_TOKEN" environ ≡ true
    → AllReadable host notices
    → ((call : Call) → IsCaught (host.send call))
    → (self : Plugin) × (calls : List Call) × (notify_all host notices
          (enabled_plugin environ begin)
        ≡ (ok tt, self, calls))
      × ((flush_last_task host self).task_report ≡ (told host notices).1)
notify_all-report host environ begin notices token readable h =
    let (self, calls, e, rows) =
      notify_all-finish host notices (enabled_plugin environ begin) token readable h in
    (self, calls, e, flush-finish host self ∙ rows)
