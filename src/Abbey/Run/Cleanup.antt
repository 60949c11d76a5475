-- ===== src/Abbey/Run/Cleanup.antt =====
-- What the clean-up of util/vpc-tools/abbey.py leaves behind, whatever was raised before.
use configuration.Base.{
  Bool, true, false, not, ◌&&◌, ◌≡◌, refl, Option, none, some, List, [], ◌∷◌, String, Result, ok,
  raised, IsIn, at_front,
}
use configuration.Base.Script.{Script, from, when, except_exception, ◌>>=◌}
use configuration.Base.Script.Calls.{IsIn-continue, IsIn-continue_later}
use configuration.Base.Script.Keeps.{Keeps, Keeps->>=, Keeps-when}
use configuration.Base.Script.Remembers.{
  MakesNothing, Remembers, Remembers-except_exception, Remembers->>=_quiet, Remembers-quiet_>>=,
  IsIn-close, quiet-Recalls,
}
use configuration.Abbey.Image.{
  Args, InstanceArgs, Call, create_queue, run_instances, delete_queue, terminate_instance, Globals,
}
use configuration.Abbey.Launch.{Services, Clock, launch_and_configure}
use configuration.Abbey.Run.{
  Lookups, Messages, create_instance_args, report_error, launch_and_tell, build, remove_all,
  remove_queue, terminate_instances, clean_up, exit_if_error, start_globals, choose_ami, try_main,
  main,
}
use configuration.Abbey.Run.Kept.{makes_nothing, send_hipchat_message-Keeps, report_error-Keeps}
use configuration.Abbey.Run.Made.{
  queue_of, instance_of, MadeQueue, MadeInstance, no_queue, no_instance,
  launch_and_configure-Remembers_queue, launch_and_configure-Remembers_instance,
}

-- The clean-up, when it is to be done.
module _ (args : Args) (messages : Messages) (no_cleanup : args.no_cleanup ≡ false)
    (noop : args.noop ≡ false) where
  remove_queue-IsIn :
      (g : Globals) (queue : String) (found : Option String)
      → found ≡ some queue
      → IsIn (delete_queue queue) (remove_queue args messages found g).2
  remove_queue-IsIn g queue none e = absurd (cc e)
  remove_queue-IsIn g queue (some q) e = let same : q ≡ queue = cc in rw same at_front

  clean_up-delete_queue :
      (g : Globals) (queue : String)
      → g.sqs_queue ≡ some queue
      → IsIn (delete_queue queue) (clean_up args messages g).2
  unfolding clean_up
  clean_up-delete_queue g queue e =
      rw (no_cleanup, noop)
        (IsIn-continue (λ _. exit_if_error args messages g) (remove_all args messages g g) _
          (IsIn-continue (λ _. terminate_instances args messages g.instance_id)
            (remove_queue args messages g.sqs_queue g) _ (remove_queue-IsIn g queue g.sqs_queue e)))

  remove_queue-ok :
      (g : Globals) (found : Option String)
      → ((queue : String) → messages.delete_queue queue ≡ ok tt)
      → (remove_queue args messages found g).0 ≡ ok tt
  remove_queue-ok g none deletes = refl
  remove_queue-ok g (some queue) deletes = deletes queue

  terminate_instances-IsIn :
      (g : Globals) (i : String) (found : Option String)
      → found ≡ some i
      → IsIn (terminate_instance i) (terminate_instances args messages found g).2
  terminate_instances-IsIn g i none e = absurd (cc e)
  terminate_instances-IsIn g i (some j) e = let same : j ≡ i = cc in rw same at_front

  clean_up-terminate_instance :
      (deletes : (queue : String) → messages.delete_queue queue ≡ ok tt) (g : Globals) (i : String)
      → g.instance_id ≡ some i
      → IsIn (terminate_instance i) (clean_up args messages g).2
  unfolding clean_up
  clean_up-terminate_instance deletes g i e =
      rw (no_cleanup, noop)
        (IsIn-continue (λ _. exit_if_error args messages g) (remove_all args messages g g) _
          (IsIn-continue_later (λ _. terminate_instances args messages g.instance_id)
            (remove_queue args messages g.sqs_queue g) _ tt (remove_queue-ok g g.sqs_queue deletes)
            (λ s. terminate_instances-IsIn s i g.instance_id e)))

module _ {κ} (P : Call → Type κ) (see : Globals → Option String)
    (harmless : (c : Call) → makes_nothing c ≡ true → P c) (args : Args) (messages : Messages) where
  remove_queue-Keeps : (found : Option String) → Keeps P see (remove_queue args messages found)
  remove_queue-Keeps none s = (refl, tt)
  remove_queue-Keeps (some queue) s = (refl, (harmless (delete_queue queue) refl, tt))

  terminate_instances-Keeps :
      (found : Option String) → Keeps P see (terminate_instances args messages found)
  terminate_instances-Keeps none s = (refl, tt)
  terminate_instances-Keeps (some i) s = (refl, (harmless (terminate_instance i) refl, tt))

  clean_up-Keeps : Keeps P see (clean_up args messages)
  unfolding clean_up
  clean_up-Keeps g =
      Keeps->>= P see (when (not args.no_cleanup && not args.noop) (remove_all args messages g)) _
        (Keeps-when P see _ (remove_all args messages g) (
          Keeps->>= P see (remove_queue args messages g.sqs_queue) _
            (remove_queue-Keeps g.sqs_queue) (λ _. terminate_instances-Keeps g.instance_id)))
        (λ _ s. (refl, tt)) g

module _ (args : Args) (lookups : Lookups) (services : Services) (clock : Clock)
    (messages : Messages) (run_id base_ami : String) where
  -- The `try` with its `except`.
  abbrev guarded : Script Globals Call (Unit {0})
  guarded =
      except_exception (build args lookups services clock messages run_id base_ami)
        (report_error args messages)

  module _ (Made : Call → String → Type 0) (see : Globals → Option String)
      (harmless : (c : Call) → makes_nothing c ≡ true → MakesNothing Made see c)
      (unmarked : (g : Globals) → see (record g { error_in_abbey_run = true }) ≡ see g)
      (launched : (ec2_args : InstanceArgs) (s : Globals)
        → Remembers Made see (launch_and_configure args services clock run_id ec2_args s)) where
    launch_and_tell-Remembers :
        (ec2_args : InstanceArgs) (s : Globals)
        → Remembers Made see
            (launch_and_tell args lookups services clock messages run_id ec2_args s)
    launch_and_tell-Remembers ec2_args =
        Remembers->>=_quiet Made see (launch_and_configure args services clock run_id ec2_args) _
          (launched ec2_args)
          (λ done.
            send_hipchat_message-Keeps (MakesNothing Made see) see harmless unmarked args messages
              _)

    Remembers-when :
        (b : Bool) (m : Script Globals Call (Unit {0}))
        → ((s : Globals) → Remembers Made see (m s))
        → (s : Globals) → Remembers Made see (when b m s)
    Remembers-when true m h s = h s
    Remembers-when false m h s = quiet-Recalls Made see s [] tt

    guarded-Remembers : (s : Globals) → Remembers Made see (guarded s)
    unfolding build
    guarded-Remembers =
        Remembers-except_exception Made see
          (build args lookups services clock messages run_id base_ami) (report_error args messages)
          (Remembers-quiet_>>= Made see (from (create_instance_args args lookups base_ami)) _
            (λ s. (refl, tt))
            (λ ec2_args. Remembers-when (not args.noop) _ (launch_and_tell-Remembers ec2_args)))
          (report_error-Keeps (MakesNothing Made see) see harmless unmarked args messages)

module _ (args : Args) (lookups : Lookups) (services : Services) (clock : Clock)
    (messages : Messages) (run_id : String) where
  module _ (Made : Call → String → Type 0) (see : Globals → Option String)
      (harmless : (c : Call) → makes_nothing c ≡ true → MakesNothing Made see c)
      (unmarked : (g : Globals) → see (record g { error_in_abbey_run = true }) ≡ see g)
      (launched : (ec2_args : InstanceArgs) (s : Globals)
        → Remembers Made see (launch_and_configure args services clock run_id ec2_args s))
      (c : Call) (v : String) (undo : Call) (m : Made c v)
      (undone : (s : Globals) → see s ≡ some v → IsIn undo (clean_up args messages s).2) where
    chosen-IsIn :
        (choice : Result String) (s : Globals)
        → IsIn c ((from choice >>= try_main args lookups services clock messages run_id) s).2
        → IsIn undo ((from choice >>= try_main args lookups services clock messages run_id) s).2
    chosen-IsIn (raised e) s i = elim i [ ]
    chosen-IsIn (ok base_ami) s i =
        IsIn-close Made see (clean_up args messages)
          (guarded args lookups services clock messages run_id base_ami s)
          (guarded-Remembers args lookups services clock messages run_id base_ami Made see harmless
            unmarked launched s)
          (clean_up-Keeps (MakesNothing Made see) see harmless args messages) c v undo i m undone

    main-IsIn :
        (s : Globals)
        → IsIn c (main args lookups services clock messages run_id s).2
        → IsIn undo (main args lookups services clock messages run_id s).2
    unfolding main
    main-IsIn = chosen-IsIn (choose_ami args lookups services clock messages)

  module _ (no_cleanup : args.no_cleanup ≡ false) (noop : args.noop ≡ false) where
    -- If clean-up is wanted and this is no trial run, then a queue that the run has created is
    -- deleted by its end, whatever was raised in between.
    pub main-delete_queue :
        (queue : String)
        → services.create run_id ≡ ok queue
        → IsIn
            (create_queue run_id)
            (main args lookups services clock messages run_id start_globals).2
        → IsIn
            (delete_queue queue)
            (main args lookups services clock messages run_id start_globals).2
    main-delete_queue queue made =
        main-IsIn (MadeQueue services) queue_of (no_queue services) (λ g. refl)
          (launch_and_configure-Remembers_queue services args clock run_id) (create_queue run_id)
          queue (delete_queue queue) made
          (λ s. clean_up-delete_queue args messages no_cleanup noop s queue) start_globals

    -- If clean-up is wanted, this is no trial run and queues can be deleted, then the first of the
    -- instances that the run has started is terminated by its end, whatever was raised in between.
    pub main-terminate_instance :
        (ec2_args : InstanceArgs) (i : String) (more : List String)
        → ((queue : String) → messages.delete_queue queue ≡ ok tt)
        → services.run ec2_args ≡ ok (i ∷ more)
        → IsIn
            (run_instances ec2_args)
            (main args lookups services clock messages run_id start_globals).2
        → IsIn
            (terminate_instance i)
            (main args lookups services clock messages run_id start_globals).2
    main-terminate_instance ec2_args i more deletes made =
        main-IsIn (MadeInstance services) instance_of (no_instance services) (λ g. refl)
          (launch_and_configure-Remembers_instance services args clock run_id)
          (run_instances ec2_args) i (terminate_instance i) (more, made)
          (λ s. clean_up-terminate_instance args messages no_cleanup noop deletes s i) start_globals
