-- ===== src/Lifecycle/Progress.antt =====
-- Every call that is due is made, and how a batch ends.
use configuration.Base.{
  ◌≡◌, refl, inl, inr, Bool, true, false, some, List, [], ◌∷◌, ◌++◌, String, ◌==◌, string_eq, Dict,
  lookup, ok, raised, type_error, Bool-cases, IsIn, at_front, behind,
}
use mathlib.Core.List.{append-nil}
use configuration.Base.Traced.{
  Traced, except_missing_host, IsIn-traced_each, IsIn-except_missing_host, IsIn-first_step, ok_step,
  traced_each-ok, traced_each-append,
}
use configuration.Lifecycle.Handler.{
  Message, Call, Aws, LifecycleHandler, readable, split_blanks, item, is_termination,
  run_subprocess_command, heartbeat_command, continue_command, record_lifecycle_action_heartbeat,
  continue_lifecycle, delete_sqs_message, retire_or_wait, process_termination, process_other,
  process_message, process_lifecycle_messages, read_message,
}
use configuration.Lifecycle.Justified.{
  Terminates, Notifies, IsMarked, IsMissing, JustifiedBy, waits, retires, retired, gone, notified,
  marked_verify, missing_verify,
}
use configuration.Lifecycle.Safety.{process_lifecycle_messages_sound}

-- A message of another kind.
pub record IsUnexpected (m : Message) : Type 0 where
  pub as_message : Dict String String
  pub body : m.body ≡ readable as_message
  pub transition : is_termination as_message ≡ false
  pub kind : String
  pub event : lookup "Event" as_message ≡ some kind
  pub differs : (kind == "autoscaling:TEST_NOTIFICATION") ≡ false
  pub id : String
  pub message_id : lookup "MessageId" as_message ≡ some id

module _ (aws : Aws) where
  -- A message that the handler knows what to do with: the termination of an instance that can be
  -- looked up, or the notification of a hook.
  pub data IsKnown (m : Message) : Type 0 where
    known_marked :
        {instance_id asg token : String} (mark : Bool)
        → Terminates m instance_id asg token
        → IsMarked aws instance_id mark
        → IsKnown m
    known_missing :
        {instance_id asg token : String}
        → Terminates m instance_id asg token
        → IsMissing aws instance_id
        → IsKnown m
    known_notice : Notifies m → IsKnown m

module _ (aws : Aws) (self : LifecycleHandler) where
  process-Terminates :
      (m : Message) (instance_id asg token : String)
      → Terminates m instance_id asg token
      → process_message aws self m
        ≡ except_missing_host
            (retire_or_wait aws self instance_id asg token m)
            (delete_sqs_message aws self m)
  unfolding process_message process_termination read_message item
  process-Terminates m instance_id asg token t =
      rw (t.body, t.transition, t.id, t.group, t.action) refl

  process-Notifies :
      (m : Message) → Notifies m → process_message aws self m ≡ delete_sqs_message aws self m
  unfolding process_message process_other read_message item
  process-Notifies m n = rw (n.body, n.transition, n.event) refl

  complete :
      (m : Message) (c : Call) → JustifiedBy aws self m c → IsIn c (process_message aws self m).1
  unfolding run_subprocess_command delete_sqs_message retire_or_wait continue_lifecycle
      record_lifecycle_action_heartbeat
  complete m _ (waits {instance_id} {asg} {token} live t marked) =
      rw
        (
          process-Terminates m instance_id asg token t,
          marked_verify aws self instance_id false marked,
          live,
        )
        (IsIn-except_missing_host _ _ _ at_front)
  complete m _ (retires {instance_id} {asg} {token} live t marked) =
      rw
        (
          process-Terminates m instance_id asg token t,
          marked_verify aws self instance_id true marked,
          live,
        )
        (IsIn-except_missing_host _ _ _ (IsIn-first_step _ _ _ at_front))
  complete m _ (retired {instance_id} {asg} {token} live t marked done) =
      rw
        (
          process-Terminates m instance_id asg token t,
          marked_verify aws self instance_id true marked,
          live,
          done,
        )
        (IsIn-except_missing_host _ _ _ (behind at_front))
  complete m _ (gone {instance_id} {asg} {token} live t missing) =
      rw
        (
          process-Terminates m instance_id asg token t,
          missing_verify aws self instance_id missing,
          live,
        )
        at_front
  complete m _ (notified live n) = rw (process-Notifies m n, live) at_front

  -- If the batch ends without an error, every call that is due for one of its messages has been made.
  pub process_lifecycle_messages_complete :
      (messages : List Message) (m : Message) (c : Call)
      → (process_lifecycle_messages aws self messages).0 ≡ ok tt
      → IsIn m messages
      → JustifiedBy aws self m c
      → IsIn c (process_lifecycle_messages aws self messages).1
  unfolding process_lifecycle_messages
  process_lifecycle_messages_complete messages m c h i j =
      IsIn-traced_each (process_message aws self) m messages c h i (complete m c j)

  nil_of_none : (calls : List Call) → ((c : Call) → IsIn c calls → ⊥) → calls ≡ []
  nil_of_none [] h = refl
  nil_of_none (c ∷ calls) h = absurd (h c at_front)

  not_live : (m : Message) (c : Call) → self.dry_run ≡ true → JustifiedBy aws self m c → ⊥
  not_live m c dry (waits live t marked) = cc
  not_live m c dry (retires live t marked) = cc
  not_live m c dry (retired live t marked done) = cc
  not_live m c dry (gone live t missing) = cc
  not_live m c dry (notified live n) = cc

  -- A dry run runs no command and deletes no message, whatever the batch holds.
  pub process_lifecycle_messages_dry :
      (messages : List Message)
      → self.dry_run ≡ true
      → (process_lifecycle_messages aws self messages).1 ≡ []
  process_lifecycle_messages_dry messages dry =
      nil_of_none (process_lifecycle_messages aws self messages).1 (λ c i.
        let (m, here, j) = process_lifecycle_messages_sound aws self messages c i in
        not_live m c dry j)

  run_ok :
      ((words : List String) → aws.run words ≡ ok tt)
      → (command : String) → (run_subprocess_command aws self command).0 ≡ ok tt
  unfolding run_subprocess_command
  run_ok works command = elim (Bool-cases self.dry_run) [
    | inl dry ↦ rw dry refl
    | inr live ↦ rw live (works (split_blanks command))
  ]

  delete_ok :
      ((m : Message) → aws.delete m ≡ ok tt)
      → (m : Message) → (delete_sqs_message aws self m).0 ≡ ok tt
  unfolding delete_sqs_message
  delete_ok deletes m = elim (Bool-cases self.dry_run) [
    | inl dry ↦ rw dry refl
    | inr live ↦ rw live (deletes m)
  ]

  except_ok :
      (step handler : Traced Call (Unit {0}))
      → step.0 ≡ ok tt
      → (except_missing_host step handler).0 ≡ ok tt
  except_ok (ok u, calls) handler h = h
  except_ok (raised x, calls) handler h = absurd (cc h)

  known_ok :
      ((words : List String) → aws.run words ≡ ok tt)
      → ((m : Message) → aws.delete m ≡ ok tt)
      → (m : Message) → IsKnown aws m
      → (process_message aws self m).0 ≡ ok tt
  unfolding retire_or_wait continue_lifecycle record_lifecycle_action_heartbeat
  known_ok works deletes m (known_marked {instance_id} {asg} {token} true t mark) =
      rw
        (process-Terminates m instance_id asg token t, marked_verify aws self instance_id true mark)
        (except_ok _ _ (
          ok_step (run_subprocess_command aws self (continue_command aws self asg token))
            (delete_sqs_message aws self m) (run_ok works (continue_command aws self asg token))
            (delete_ok deletes m)))
  known_ok works deletes m (known_marked {instance_id} {asg} {token} false t mark) =
      rw
        (
          process-Terminates m instance_id asg token t,
          marked_verify aws self instance_id false mark,
        )
        (except_ok _ _ (run_ok works (heartbeat_command aws self asg token)))
  known_ok works deletes m (known_missing {instance_id} {asg} {token} t gone_) =
      rw (process-Terminates m instance_id asg token t, missing_verify aws self instance_id gone_)
        (delete_ok deletes m)
  known_ok works deletes m (known_notice n) = rw (process-Notifies m n) (delete_ok deletes m)

  -- If commands and deletions succeed and the handler knows what to do with each message of the
  -- batch, it ends without an error.
  pub process_lifecycle_messages_ok :
      (messages : List Message)
      → ((words : List String) → aws.run words ≡ ok tt)
      → ((m : Message) → aws.delete m ≡ ok tt)
      → ((m : Message) → IsIn m messages → IsKnown aws m)
      → (process_lifecycle_messages aws self messages).0 ≡ ok tt
  unfolding process_lifecycle_messages
  process_lifecycle_messages_ok messages works deletes known =
      traced_each-ok (process_message aws self) messages
        (λ m i. known_ok works deletes m (known m i))

  process-IsUnexpected :
      (m : Message) → IsUnexpected m → process_message aws self m ≡ (raised type_error, [])
  unfolding process_message process_other read_message item
  process-IsUnexpected m u = rw (u.body, u.transition, u.event, u.differs, u.message_id) refl

  -- A message of a kind that the handler does not know ends the run with a `TypeError`: the messages
  -- behind it are not looked at, and those before it have been dealt with.
  pub process_lifecycle_messages_raised :
      (before after : List Message) (m : Message)
      → (process_lifecycle_messages aws self before).0 ≡ ok tt
      → IsUnexpected m
      → process_lifecycle_messages aws self (before ++ m ∷ after)
        ≡ (raised type_error, (process_lifecycle_messages aws self before).1)
  unfolding process_lifecycle_messages
  process_lifecycle_messages_raised before after m h u =
      rw
        (
          traced_each-append (process_message aws self) before (m ∷ after) h,
          process-IsUnexpected m u,
          append-nil,
        )
        refl
