-- ===== src/Abbey/Run/Made.antt =====
-- What util/vpc-tools/abbey.py has created is in its global variables.
use configuration.Base.{
  true, ◌≡◌, refl, Option, some, List, [], ◌∷◌, String, Result, ok, raised, at_front, behind,
}
use configuration.Base.Script.{from, perform, assign, continue, ◌>>=◌}
use configuration.Base.Script.Keeps.{Keeps->>=}
use configuration.Base.Script.Remembers.{
  MakesNothing, Remembers, Remembers->>=_quiet, Remembers-quiet_>>=,
}
use configuration.Abbey.Image.{
  Args, InstanceArgs, Call, create_queue, run_instances, create_image, add_tag, delete_queue,
  terminate_instance, get_url, message_room, Globals,
}
use configuration.Abbey.Launch.{
  Services, Clock, first_of, make_queue, make_instance, launch_and_configure,
}
use configuration.Abbey.Run.Kept.{makes_nothing, configure-Keeps}

abbrev pub queue_of : Globals → Option String
queue_of g = g.sqs_queue

abbrev pub instance_of : Globals → Option String
instance_of g = g.instance_id

module _ (services : Services) where
  -- The queue that a call has created.
  abbrev pub MadeQueue : Call → String → Type 0
  MadeQueue (create_queue name) queue = services.create name ≡ ok queue
  MadeQueue c queue = ⊥

  -- The first of the instances that a call has started.
  abbrev pub MadeInstance : Call → String → Type 0
  MadeInstance (run_instances ec2_args) i =
      (more : List String) × (services.run ec2_args ≡ ok (i ∷ more))
  MadeInstance c i = ⊥

  pub no_queue : (c : Call) → makes_nothing c ≡ true → MakesNothing MadeQueue queue_of c
  no_queue (create_queue name) h q m = absurd (cc h)
  no_queue (run_instances ec2_args) h q m = absurd (cc h)
  no_queue (create_image i name) h q m = m
  no_queue (add_tag i t) h q m = m
  no_queue (delete_queue q) h p m = m
  no_queue (terminate_instance i) h q m = m
  no_queue (get_url url) h q m = m
  no_queue (message_room message) h q m = m

  pub no_instance : (c : Call) → makes_nothing c ≡ true → MakesNothing MadeInstance instance_of c
  no_instance (create_queue name) h q m = absurd (cc h)
  no_instance (run_instances ec2_args) h q m = absurd (cc h)
  no_instance (create_image i name) h q m = m
  no_instance (add_tag i t) h q m = m
  no_instance (delete_queue q) h p m = m
  no_instance (terminate_instance i) h q m = m
  no_instance (get_url url) h q m = m
  no_instance (message_room message) h q m = m

  queue_answer :
      (run_id : String) (answer : Result String) (s : Globals)
      → services.create run_id ≡ answer
      → Remembers MadeQueue queue_of (
          continue
            (λ queue. assign (λ g. record g { sqs_queue = some queue }))
            (perform {C = Call} (create_queue run_id) answer s))
  queue_answer run_id (ok queue) s e c v at_front m =
      let same : services.create run_id ≡ ok v = m in cc
  queue_answer run_id (ok queue) s e c v (behind i) m = elim i [ ]
  queue_answer run_id (raised x) s e c v at_front m =
      let same : services.create run_id ≡ ok v = m in absurd (cc same)
  queue_answer run_id (raised x) s e c v (behind i) m = elim i [ ]

  instance_answer :
      (ec2_args : InstanceArgs) (answer : Result (List String)) (s : Globals)
      → services.run ec2_args ≡ answer
      → Remembers MadeInstance instance_of (
          continue
            (λ instances. from (first_of instances) >>= λ i.
              assign (λ g. record g { instance_id = some i }) >>= λ _. from (ok i))
            (perform {C = Call} (run_instances ec2_args) answer s))
  instance_answer ec2_args (ok (j ∷ instances)) s e c v at_front (more, same) = cc
  instance_answer ec2_args (ok (j ∷ instances)) s e c v (behind i) m = elim i [ ]
  instance_answer ec2_args (ok []) s e c v at_front (more, same) = absurd (cc same)
  instance_answer ec2_args (ok []) s e c v (behind i) m = elim i [ ]
  instance_answer ec2_args (raised x) s e c v at_front (more, same) = absurd (cc same)
  instance_answer ec2_args (raised x) s e c v (behind i) m = elim i [ ]

  module _ (args : Args) (clock : Clock) (run_id : String) where
    pub launch_and_configure-Remembers_queue :
        (ec2_args : InstanceArgs) (s : Globals)
        → Remembers MadeQueue queue_of (launch_and_configure args services clock run_id ec2_args s)
    unfolding launch_and_configure
    launch_and_configure-Remembers_queue ec2_args =
        Remembers->>=_quiet MadeQueue queue_of (make_queue args services clock run_id) _
          (λ s. queue_answer run_id (services.create run_id) s refl)
          (λ _.
            Keeps->>= (MakesNothing MadeQueue queue_of) queue_of
              (make_instance args services clock ec2_args) _
              (Keeps->>= (MakesNothing MadeQueue queue_of) queue_of
                (perform (run_instances ec2_args) (services.run ec2_args)) _
                (λ s. (refl, (λ q m. m, tt)))
                (λ instances.
                  Keeps->>= (MakesNothing MadeQueue queue_of) queue_of (from (first_of instances)) _
                    (λ s. (refl, tt)) (λ i s. (refl, tt))))
              (configure-Keeps (MakesNothing MadeQueue queue_of) queue_of no_queue (λ g. refl) args
                services clock run_id))

    pub launch_and_configure-Remembers_instance :
        (ec2_args : InstanceArgs) (s : Globals)
        → Remembers MadeInstance instance_of
            (launch_and_configure args services clock run_id ec2_args s)
    unfolding launch_and_configure
    launch_and_configure-Remembers_instance ec2_args =
        Remembers-quiet_>>= MadeInstance instance_of (make_queue args services clock run_id) _
          (Keeps->>= (MakesNothing MadeInstance instance_of) instance_of
            (perform (create_queue run_id) (services.create run_id)) _ (λ s. (refl, (λ q m. m, tt)))
            (λ queue s. (refl, tt)))
          (λ _.
            Remembers->>=_quiet MadeInstance instance_of
              (make_instance args services clock ec2_args) _
              (λ s. instance_answer ec2_args (services.run ec2_args) s refl)
              (configure-Keeps (MakesNothing MadeInstance instance_of) instance_of no_instance
                (λ g. refl) args services clock run_id))
