-- ===== src/Lifecycle/Justified.antt =====
-- Which calls are due for a message, and what the answers of the services mean.
use configuration.Base.{
  ◌≡◌, ◌≢◌, refl, Bool, true, false, some, List, [], ◌∷◌, String, arith, string_eq, Dict, lookup,
  length, Result, ok, raised, missing_host,
}
use configuration.Lifecycle.Handler.{
  Message, Instance, first_instance, single_instance, is_retirable, Call, check_output,
  delete_message, Aws, LifecycleHandler, readable, split_blanks, is_true, is_termination,
  get_ec2_instance_by_id, verify_ok_to_retire, heartbeat_command, continue_command,
}

-- The message announces the termination of an instance, with all that the handler asks of it.
pub record Terminates (m : Message) (instance_id asg token : String) : Type 0 where
  pub as_message : Dict String String
  pub body : m.body ≡ readable as_message
  pub transition : is_termination as_message ≡ true
  pub id : lookup "EC2InstanceId" as_message ≡ some instance_id
  pub group : lookup "AutoScalingGroupName" as_message ≡ some asg
  pub action : lookup "LifecycleActionToken" as_message ≡ some token

-- The message tells of a new lifecycle hook.
pub record Notifies (m : Message) : Type 0 where
  pub as_message : Dict String String
  pub body : m.body ≡ readable as_message
  pub transition : is_termination as_message ≡ false
  pub event : lookup "Event" as_message ≡ some "autoscaling:TEST_NOTIFICATION"

module _ (aws : Aws) where
  -- There is one instance of that name, and when it is asked for again its tag says whether it may be
  -- retired.
  pub record IsMarked (instance_id : String) (mark : Bool) : Type 0 where
    pub counted : Instance
    pub single : aws.get_only_instances instance_id ≡ ok (counted ∷ [])
    pub instance_ : Instance
    pub others : List Instance
    pub again : aws.get_only_again instance_id ≡ ok (instance_ ∷ others)
    pub tag : is_true (lookup "safe_to_retire" instance_.tags) ≡ mark

  pub record IsMissing (instance_id : String) : Type 0 where
    pub instances : List Instance
    pub answer : aws.get_only_instances instance_id ≡ ok instances
    pub number : length instances ≢ 1

marked_again :
    (again : Result (List Instance)) (mark : Bool)
    → is_retirable (first_instance again) ≡ ok mark
    → (i : Instance) × (others : List Instance) × (again ≡ ok (i ∷ others))
      × (is_true (lookup "safe_to_retire" i.tags) ≡ mark)
marked_again (raised x) mark h = absurd (cc h)
marked_again (ok []) mark h = absurd (cc h)
marked_again (ok (i ∷ others)) mark h = (i, others, refl, ground arith)

marked_answer :
    (r again : Result (List Instance)) (mark : Bool)
    → is_retirable (single_instance r again) ≡ ok mark
    → (counted : Instance) × (r ≡ ok (counted ∷ []))
      × (i : Instance) × (others : List Instance) × (again ≡ ok (i ∷ others))
      × (is_true (lookup "safe_to_retire" i.tags) ≡ mark)
marked_answer (raised x) again mark h = absurd (cc h)
marked_answer (ok []) again mark h = absurd (cc h)
marked_answer (ok (i ∷ [])) again mark h =
    let (j, others, e, tag) = marked_again again mark h in (i, refl, j, others, e, tag)
marked_answer (ok (i ∷ j ∷ rest)) again mark h = absurd (cc h)

missing_again :
    (again : Result (List Instance))
    → again ≢ raised missing_host
    → is_retirable (first_instance again) ≢ raised missing_host
missing_again (raised x) differs h = differs (ground arith)
missing_again (ok []) differs h = cc h
missing_again (ok (i ∷ others)) differs h = cc h

missing_answer :
    (r again : Result (List Instance))
    → r ≢ raised missing_host
    → again ≢ raised missing_host
    → is_retirable (single_instance r again) ≡ raised missing_host
    → (instances : List Instance) × (r ≡ ok instances) × (length instances ≢ 1)
missing_answer (raised x) again differs d h = absurd (differs (ground arith))
missing_answer (ok []) again differs d h = ([], refl, λ e. omega arith)
missing_answer (ok (i ∷ [])) again differs d h = absurd (missing_again again d h)
missing_answer (ok (i ∷ j ∷ rest)) again differs d h = (i ∷ j ∷ rest, refl, λ e. omega arith)

answer_missing :
    (instances : List Instance) (again : Result (List Instance))
    → length instances ≢ 1
    → is_retirable (single_instance (ok instances) again) ≡ raised missing_host
answer_missing [] again differs = refl
answer_missing (i ∷ []) again differs = absurd (differs refl)
answer_missing (i ∷ j ∷ rest) again differs = refl

module _ (aws : Aws) (self : LifecycleHandler) where
  pub verify-IsMarked :
      (instance_id : String) (mark : Bool)
      → verify_ok_to_retire aws self instance_id ≡ ok mark
      → IsMarked aws instance_id mark
  unfolding verify_ok_to_retire get_ec2_instance_by_id
  verify-IsMarked instance_id mark h =
      let (counted, single, i, others, again, tag) =
        marked_answer (aws.get_only_instances instance_id) (aws.get_only_again instance_id) mark
          h in
      record {
        counted = counted;
        single = single;
        instance_ = i;
        others = others;
        again = again;
        tag = tag;
      }

  pub verify-IsMissing :
      (instance_id : String)
      → verify_ok_to_retire aws self instance_id ≡ raised missing_host
      → IsMissing aws instance_id
  unfolding verify_ok_to_retire get_ec2_instance_by_id
  verify-IsMissing instance_id h =
      let (is, answer, number) =
        missing_answer (aws.get_only_instances instance_id) (aws.get_only_again instance_id)
          (aws.instances-missing_host instance_id) (aws.again-missing_host instance_id) h in
      record { instances = is; answer = answer; number = number }

  pub marked_verify :
      (instance_id : String) (mark : Bool)
      → IsMarked aws instance_id mark
      → verify_ok_to_retire aws self instance_id ≡ ok mark
  unfolding verify_ok_to_retire get_ec2_instance_by_id
  marked_verify instance_id mark h = rw (h.single, h.again, h.tag)

  pub missing_verify :
      (instance_id : String)
      → IsMissing aws instance_id
      → verify_ok_to_retire aws self instance_id ≡ raised missing_host
  unfolding verify_ok_to_retire get_ec2_instance_by_id
  missing_verify instance_id h =
      rw h.answer (answer_missing h.instances (aws.get_only_again instance_id) h.number)

  -- The call that is due for a message: a heartbeat while the instance may not be retired yet, the
  -- end of the transition once it may, and the deletion of the message after that, or if the
  -- instance is gone, or if the message is the notification of a hook.
  pub data JustifiedBy (m : Message) : Call → Type 0 where
    waits :
        {instance_id asg token : String}
        → self.dry_run ≡ false
        → Terminates m instance_id asg token
        → IsMarked aws instance_id false
        → JustifiedBy m (check_output (split_blanks (heartbeat_command aws self asg token)))
    retires :
        {instance_id asg token : String}
        → self.dry_run ≡ false
        → Terminates m instance_id asg token
        → IsMarked aws instance_id true
        → JustifiedBy m (check_output (split_blanks (continue_command aws self asg token)))
    retired :
        {instance_id asg token : String}
        → self.dry_run ≡ false
        → Terminates m instance_id asg token
        → IsMarked aws instance_id true
        → aws.run (split_blanks (continue_command aws self asg token)) ≡ ok tt
        → JustifiedBy m (delete_message m)
    gone :
        {instance_id asg token : String}
        → self.dry_run ≡ false
        → Terminates m instance_id asg token
        → IsMissing aws instance_id
        → JustifiedBy m (delete_message m)
    notified : self.dry_run ≡ false → Notifies m → JustifiedBy m (delete_message m)
