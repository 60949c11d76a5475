-- ===== src/Callbacks/Sqs/Told.antt =====
-- What playbooks/callback_plugins/sqs.py sends where nothing fails.
use configuration.Base.{
  ℕ, suc, ◌+◌, ◌≡◌, refl, Bool, true, false, not, ◌&&◌, Option, none, some, List, [], ◌∷◌, ◌++◌,
  String, ◌==◌, string_eq, if◌then◌else◌, ok, All, All-append, arith, Bool-cases, ◌∙◌, ◌-◌, inl,
  inr,
}
use configuration.Base.Script.Calls.{when-true, when-false}
use configuration.Abbey.Poll.{
  Event, MsgInfo, SqsMessage, TaskResult, Round, keep, poll, finished, TaskReport, num_playbooks,
  start_state, Outcome,
}
use configuration.Abbey.Poll.Shown.{fails, completes}
use configuration.Callbacks.Sqs.{
  Output, text, flag, Invocation, TaskOutcome, Message, called, result_of, stats_of, Payload,
  Plugin, Times, Sqs, clip_output, clip_if_any, clip_lines, clip_result, clip, is_result,
  see_message, payload_of, send_queue_message, Notice, on_failed, on_ok, on_task_start,
  on_play_start, on_stats, notify, notify_all, names_module,
}

-- The payload as the poll reads it: by the keys of the object that its JSON stands for.
abbrev name_if : Bool → Message → Option String
name_if true (called name) = some name
name_if b msg = none

abbrev invocation_seen : Option Invocation → Option configuration.Abbey.Poll.Invocation
invocation_seen none = none
invocation_seen (some i) = some (record { text = i.module_args; module_name = i.module_name })

abbrev result_if : Bool → Message → Option TaskResult
result_if true (result_of res) =
    some (record { invocation = invocation_seen res.invocation; changed = res.changed })
result_if b msg = none

abbrev pub view : Payload → Event
view p = record {
  ts = some p.ts;
  delta = p.delta;
  prefix = some p.prefix;
  start = name_if (p.msg_type == "START") p.msg;
  task = name_if (p.msg_type == "TASK") p.msg;
  ok_ = result_if (p.msg_type == "OK") p.msg;
  failure = p.msg_type == "FAILURE";
  stats = p.msg_type == "STATS";
}

-- An output that can be clipped.
abbrev pub is_clippable : Option Output → Bool
is_clippable (some (flag true)) = false
is_clippable output = true

-- A notice of no failure, whose outputs can be clipped.
abbrev pub IsFine : Notice → Type 0
IsFine (on_failed res ignore_errors) = ignore_errors ≡ true
IsFine (on_ok res) = (is_clippable res.stderr ≡ true) × (is_clippable res.stdout ≡ true)
IsFine notice = Unit

abbrev pub playbooks : List (Notice × Times) → ℕ
playbooks [] = 0
playbooks ((on_stats counts now, t) ∷ notices) = suc (playbooks notices)
playbooks ((notice, t) ∷ notices) = playbooks notices

abbrev pub ends : List Payload → ℕ
ends [] = 0
ends (p ∷ payloads) = if completes (view p) then suc (ends payloads) else ends payloads

abbrev pub IsHarmless : Payload → Type 0
IsHarmless p = fails (view p) ≡ false

clip_if_any-ok :
    (output : Option Output)
    → is_clippable output ≡ true
    → (clipped : Option Output) × (clip_if_any output ≡ ok clipped)
unfolding clip_output
clip_if_any-ok none h = (_, refl)
clip_if_any-ok (some (text characters)) h = (_, refl)
clip_if_any-ok (some (flag true)) h = absurd (cc h)
clip_if_any-ok (some (flag false)) h = (_, refl)

clip_result-ok :
    (res : TaskOutcome)
    → is_clippable res.stderr ≡ true
    → is_clippable res.stdout ≡ true
    → (clipped : TaskOutcome) × (clip_result res ≡ ok clipped)
unfolding clip_result
clip_result-ok res h k =
    let (stderr, e) = clip_if_any-ok res.stderr h in
    let (stdout, f) = clip_if_any-ok res.stdout k in
    (
      record res { stderr = stderr; stdout = stdout; stdout_lines = clip_lines res.stdout_lines },
      rw (e, f) refl,
    )

playbooks-cons :
    (notice : Notice) (t : Times) (notices : List (Notice × Times))
    → playbooks ((notice, t) ∷ notices) ≡ playbooks ((notice, t) ∷ []) + playbooks notices
playbooks-cons (on_failed res ignore_errors) t notices = omega arith
playbooks-cons (on_ok res) t notices = omega arith
playbooks-cons (on_task_start name) t notices = omega arith
playbooks-cons (on_play_start pattern) t notices = omega arith
playbooks-cons (on_stats counts now) t notices = omega arith

ends-append : (ps qs : List Payload) → ends (ps ++ qs) ≡ ends ps + ends qs
ends-append [] qs = omega arith
ends-append (p ∷ ps) qs = ground (arith, ends-append ps qs)

abbrev pub FineNotice : Notice × Times → Type 0
FineNotice (notice, t) = IsFine notice

module _ (sqs : Sqs) (sends : (p : Payload) → sqs.send_message p ≡ ok tt) where
  send_queue_message-ok :
      (msg clipped : Message) (msg_type : String) (t : Times) (self : Plugin)
      → self.enable_sqs ≡ true
      → (if is_result msg_type then clip msg else ok msg) ≡ ok clipped
      → send_queue_message sqs msg msg_type t self
        ≡ (ok tt, see_message msg_type t.seen self, payload_of msg_type clipped t self ∷ [])
  unfolding send_queue_message
  send_queue_message-ok msg clipped msg_type t self on e =
      rw (on, e, sends (payload_of msg_type clipped t self)) refl

  -- What one notice leads to.
  record Told (notice : Notice) (t : Times) (self : Plugin) : Type 0 where
    next : Plugin
    sent : List Payload
    run : notify sqs notice t self ≡ (ok tt, next, sent)
    enabled : next.enable_sqs ≡ true
    harmless : All IsHarmless sent
    counted : ends sent ≡ playbooks ((notice, t) ∷ [])

  tell :
      (notice : Notice) (t : Times) (self : Plugin)
      → self.enable_sqs ≡ true
      → IsFine notice
      → Told notice t self
  tell (on_failed res ignore_errors) t self on fine = record {
    next = self;
    sent = [];
    run =
        when-false (send_queue_message sqs (result_of res) "FAILURE" t) self
          (self.enable_sqs && not ignore_errors) (ground (arith, fine));
    enabled = on;
    harmless = tt;
    counted = refl;
  }
  tell (on_ok res) t self on fine = elim (Bool-cases (names_module res.invocation)) [
    | inl named ↦
        let (clipped, e) = clip_result-ok res fine.0 fine.1 in
        record {
          next = see_message "OK" t.seen self;
          sent = payload_of "OK" (result_of clipped) t self ∷ [];
          run =
              when-true (send_queue_message sqs (result_of res) "OK" t) self
                (self.enable_sqs && names_module res.invocation) (ground arith)
              ∙ send_queue_message-ok (result_of res) (result_of clipped) "OK" t self on
                  (rw e refl);
          enabled = on;
          harmless = (refl, tt);
          counted = refl;
        }
    | inr unnamed ↦ record {
      next = self;
      sent = [];
      run =
          when-false (send_queue_message sqs (result_of res) "OK" t) self
            (self.enable_sqs && names_module res.invocation) (ground arith);
      enabled = on;
      harmless = tt;
      counted = refl;
    }
  ]
  tell (on_task_start name) t self on fine = record {
    next = see_message "TASK" t.seen self;
    sent = payload_of "TASK" (called name) t self ∷ [];
    run =
        when-true (send_queue_message sqs (called name) "TASK" t) self self.enable_sqs on
        ∙ send_queue_message-ok (called name) (called name) "TASK" t self on refl;
    enabled = on;
    harmless = (refl, tt);
    counted = refl;
  }
  tell (on_play_start pattern) t self on fine = record {
    next = see_message "START" t.seen self;
    sent = payload_of "START" (called pattern) t self ∷ [];
    run =
        when-true (send_queue_message sqs (called pattern) "START" t) self self.enable_sqs on
        ∙ send_queue_message-ok (called pattern) (called pattern) "START" t self on refl;
    enabled = on;
    harmless = (refl, tt);
    counted = refl;
  }
  tell (on_stats counts now) t self on fine =
      let stats = stats_of (record { delta = now - self.start_time; counts = counts }) in
      record {
        next = see_message "STATS" t.seen self;
        sent = payload_of "STATS" stats t self ∷ [];
        run =
            when-true (send_queue_message sqs stats "STATS" t) self self.enable_sqs on
            ∙ send_queue_message-ok stats stats "STATS" t self on refl;
        enabled = on;
        harmless = (refl, tt);
        counted = refl;
      }

  -- What a sequence of notices leads to.
  pub record ToldAll (notices : List (Notice × Times)) (self : Plugin) : Type 0 where
    pub next : Plugin
    pub sent : List Payload
    pub run : notify_all sqs notices self ≡ (ok tt, next, sent)
    pub harmless : All IsHarmless sent
    pub counted : ends sent ≡ playbooks notices

  pub tell_each :
      (notices : List (Notice × Times)) (self : Plugin)
      → self.enable_sqs ≡ true
      → All FineNotice notices
      → ToldAll notices self
  unfolding notify_all
  tell_each [] self on fine = record {
    next = self;
    sent = [];
    run = refl;
    harmless = tt;
    counted = refl;
  }
  tell_each ((notice, t) ∷ notices) self on fine =
      let told = tell notice t self on fine.0 in
      let rest = tell_each notices told.next told.enabled fine.1 in
      record {
        next = rest.next;
        sent = told.sent ++ rest.sent;
        run = rw (told.run, rest.run) refl;
        harmless = All-append IsHarmless told.sent rest.sent told.harmless rest.harmless;
        counted =
            let a = told.counted in
            let b = rest.counted in
            omega (arith, ends-append told.sent rest.sent, playbooks-cons notice t notices);
      }
