-- ===== src/Callbacks/Sqs/Polled.antt =====
-- The two ends of the queue: what playbooks/callback_plugins/sqs.py sends is what
-- `poll_sqs_ansible` of util/vpc-tools/abbey.py waits for.
use mathlib.Core.List.{append_assoc}
use mathlib.Core.Path.{subst}
use configuration.Base.{
  ℕ, suc, ◌+◌, ◌≤◌, ◌<◌, ◌≡◌, refl, Bool, true, Option, some, List, [], ◌∷◌, ◌++◌, string_eq,
  length, length-append, ok, All, All-append, All-split, ap, arith, ◌∙◌,
}
use configuration.Abbey.Poll.{
  Event, MsgInfo, SqsMessage, Round, keep, poll, finished, TaskReport, num_playbooks, start_state,
}
use configuration.Abbey.Poll.Order.{parsed}
use configuration.Abbey.Poll.Finish.{completions, IsReady, IsQuiet, poll-finished}
use configuration.Callbacks.Sqs.{Payload, Plugin, Times, Sqs, Notice, notify_all}
use configuration.Callbacks.Sqs.Told.{view, playbooks, ends, IsHarmless, FineNotice, tell_each}

parsed-append : (xs ys : List SqsMessage) → parsed (xs ++ ys) ≡ parsed xs ++ parsed ys
parsed-append [] ys = refl
parsed-append (x ∷ xs) ys = rw (parsed-append xs ys, append_assoc) refl

completions-append :
    (xs ys : List MsgInfo) → completions (xs ++ ys) ≡ completions xs + completions ys
completions-append [] ys = omega arith
completions-append (x ∷ xs) ys = ground (arith, completions-append xs ys)

-- The messages that the queue hands out for the payloads, each once and in any order, where JSON is
-- written and read by `dumps` and `loads`.
module _ {Text : Type 0} (dumps : Payload → Text) (loads : Text → Option Event) (latest : ℕ) where
  pub data IsDelivered : List Payload → List SqsMessage → Type 0 where
    all_delivered : IsDelivered [] []
    delivered :
        {p : Payload} {payloads : List Payload} (front : List SqsMessage) (m : SqsMessage)
        (back : List SqsMessage)
        → m.body ≡ loads (dumps p)
        → m.received ≤ latest
        → IsDelivered payloads (front ++ back)
        → IsDelivered (p ∷ payloads) (front ++ m ∷ back)

  module _ (json : (p : Payload) → loads (dumps p) ≡ some (view p)) where
    abbrev info : Payload → SqsMessage → MsgInfo
    info p m = record { msg = view p; sent_ts = m.sent; recv_ts = m.received }

    parsed-delivered :
        (p : Payload) (front : List SqsMessage) (m : SqsMessage) (back : List SqsMessage)
        → m.body ≡ loads (dumps p)
        → parsed (front ++ m ∷ back) ≡ parsed front ++ info p m ∷ parsed back
    parsed-delivered p front m back e =
        let body : m.body ≡ some (view p) = e ∙ json p in
        let shown : parsed (m ∷ back) ≡ info p m ∷ parsed back =
          ap (λ b. keep m b [] ++ parsed back) body in
        parsed-append front (m ∷ back) ∙ ap (λ xs. parsed front ++ xs) shown

    IsDelivered-IsReady :
        (payloads : List Payload) (messages : List SqsMessage)
        → IsDelivered payloads messages
        → All IsHarmless payloads
        → All (IsReady latest) (parsed messages)
          × (completions (parsed messages) ≡ ends payloads)
          × (length (parsed messages) ≡ length payloads)
    IsDelivered-IsReady [] _ all_delivered h = (tt, refl, refl)
    IsDelivered-IsReady (p ∷ payloads) _ (delivered front m back e early d) h =
        let (ready, count, size) = IsDelivered-IsReady payloads (front ++ back) d h.1 in
        let parts = parsed-append front back in
        let (before, behind) =
          All-split (IsReady latest) (parsed front) (parsed back)
            (subst (All (IsReady latest)) parts ready) in
        let whole = parsed-delivered p front m back e in
        let counts = ap completions parts ∙ completions-append (parsed front) (parsed back) in
        let sizes = ap length parts ∙ length-append (parsed front) (parsed back) in
        (
          rw whole (
              All-append (IsReady latest) (parsed front) (info p m ∷ parsed back) before
                ((early, refl, h.0), behind)),
          rw whole (
              ground
                (arith, completions-append (parsed front) (info p m ∷ parsed back), counts, count)),
          rw whole
              (omega (arith, length-append (parsed front) (info p m ∷ parsed back), sizes, size)),
        )

    module _ (sqs : Sqs) (sends : (p : Payload) → sqs.send_message p ≡ ok tt) where
      -- If the plugin is enabled, every payload can be sent, no notice is of a failure that counts,
      -- no output is a true truth value and two playbooks at least end, and if the queue hands out
      -- each payload once, in any order and by a given time, then a round late enough for all of
      -- them, with as many late and quiet rounds as there are further payloads, ends the poll with a
      -- result.
      pub notify_all-poll :
          (notices : List (Notice × Times)) (self : Plugin)
          → self.enable_sqs ≡ true
          → All FineNotice notices
          → num_playbooks ≤ playbooks notices
          → (messages : List SqsMessage) → IsDelivered (notify_all sqs notices self).2 messages
          → (verbose : Bool) (msg_delay now : ℕ) (rounds : List Round) → latest + msg_delay < now
          → All (IsQuiet msg_delay latest) rounds
          → length (notify_all sqs notices self).2 ≤ suc (length rounds)
          → (ts : ℕ) × (report : List TaskReport) × (poll verbose msg_delay
                (record { messages = messages; now = now } ∷ rounds)
                start_state
              ≡ ok (finished ts report))
      notify_all-poll notices self on fine enough messages out verbose msg_delay now rounds late
            quiet time =
          let told = tell_each sqs sends notices self on fine in
          let sent : (notify_all sqs notices self).2 ≡ told.sent = ap (λ r. r.2) told.run in
          let (ready, count, size) =
            IsDelivered-IsReady told.sent messages
              (subst (λ payloads. IsDelivered payloads messages) sent out) told.harmless in
          let counted = told.counted in
          let times : length told.sent ≤ suc (length rounds) =
            subst (λ payloads. length payloads ≤ suc (length rounds)) sent time in
          poll-finished verbose msg_delay latest messages now rounds ready
            (omega (arith, enough, count, counted)) late quiet (omega (arith, size, times))
