-- ===== src/Abbey/Run/Kept.antt =====
-- What the script does besides creating the queue and starting the instance keeps the global
-- variables of both.
use configuration.Base.{
  ℕ, Bool, true, false, ◌≡◌, refl, Option, none, some, List, [], ◌∷◌, String, Exception,
  other_error, select, ◌==◌, string_eq,
}
use configuration.Base.Script.{from, perform, wait_until}
use configuration.Base.Script.Keeps.{
  Keeps, Keeps-if, Keeps->>=, Keeps-except_ec2, Keeps-except_exception, Keeps-when,
  Keeps-wait_until,
}
use configuration.Abbey.Image.{
  Args, Tag, Call, create_queue, run_instances, create_image, add_tag, get_url, message_room,
  Globals, Images, add_tags, fixed_tags, is_version, tag_image, retry_if_missing, try_image,
  create_ami, ami_timeout,
}
use configuration.Abbey.Launch.{
  first_of, Services, Clock, check_instance, check_status, is_running, retry_if_unknown,
  ec2_run_timeout, ec2_status_timeout, configure, wait_for_running, wait_for_status,
  poll_sqs_ansible,
}
use configuration.Abbey.Run.{Messages, is_given, send_hipchat_message, report_error}

-- The calls that neither create a queue nor start an instance.
abbrev pub makes_nothing : Call → Bool
makes_nothing (create_queue name) = false
makes_nothing (run_instances ec2_args) = false
makes_nothing c = true

module _ {κ} (P : Call → Type κ) (see : Globals → Option String)
    (harmless : (c : Call) → makes_nothing c ≡ true → P c)
    (unmarked : (g : Globals) → see (record g { error_in_abbey_run = true }) ≡ see g) where
  module _ (images : Images) where
    add_tags-Keeps :
        (n : ℕ) (image_id : String) (tags : List Tag)
        → Keeps P see (add_tags images n image_id tags)
    add_tags-Keeps n image_id [] s = (refl, tt)
    add_tags-Keeps n image_id (t ∷ tags) s =
        Keeps->>= P see (perform (add_tag image_id t) (images.tag n t))
          (λ _. add_tags images n image_id tags)
          (λ s. (refl, (harmless (add_tag image_id t) refl, tt)))
          (λ _. add_tags-Keeps n image_id tags) s

    tag_image-Keeps :
        (args : Args) (instance_id image_id : String) (n : ℕ)
        → Keeps P see (tag_image images args instance_id image_id n)
    unfolding tag_image
    tag_image-Keeps args instance_id image_id n =
        Keeps->>= P see (add_tags images n image_id (fixed_tags args)) _
          (add_tags-Keeps n image_id (fixed_tags args))
          (λ _.
            Keeps->>= P see (from (images.tags_of n instance_id)) _ (λ s. (refl, tt))
              (λ tags. add_tags-Keeps n image_id (select is_version tags)))

    try_image-Keeps :
        (args : Args) (instance_id image_id : String) (n : ℕ)
        → Keeps P see (try_image images args instance_id image_id n)
    unfolding try_image
    try_image-Keeps args instance_id image_id n =
        Keeps-except_ec2 P see _ retry_if_missing
          (Keeps->>= P see (from (images.state n image_id)) _ (λ s. (refl, tt))
            (λ state.
              Keeps-if P see (state == "available") _ _
                (Keeps->>= P see (tag_image images args instance_id image_id n) _
                  (tag_image-Keeps args instance_id image_id n) (λ _ s. (refl, tt)))
                (λ s. (refl, tt))))
          (λ code s. (refl, tt))

    create_ami-Keeps :
        (args : Args) (instance_id name : String)
        → Keeps P see (create_ami images args instance_id name)
    unfolding create_ami
    create_ami-Keeps args instance_id name =
        Keeps->>= P see (perform (create_image instance_id name) (images.create instance_id name)) _
          (λ s. (refl, (harmless (create_image instance_id name) refl, tt)))
          (λ image_id.
            Keeps->>= P see
              (wait_until (try_image images args instance_id image_id) other_error ami_timeout 0) _
              (Keeps-wait_until P see _ other_error ami_timeout 0
                (try_image-Keeps args instance_id image_id))
              (λ _ s. (refl, tt)))

  module _ (args : Args) (services : Services) (clock : Clock) where
    is_running-Keeps : (found : Option (List (List String))) → Keeps P see (is_running found)
    is_running-Keeps none s = (refl, tt)
    is_running-Keeps (some reservations) s =
        Keeps->>= P see (from (first_of reservations)) _ (λ s. (refl, tt))
          (λ instances.
            Keeps->>= P see (from (first_of instances)) _ (λ s. (refl, tt)) (λ state s. (refl, tt)))
          s

    check_instance-Keeps :
        (instance_id : String) (n : ℕ)
        → Keeps P see (check_instance args services clock instance_id n)
    check_instance-Keeps instance_id n =
        Keeps->>= P see _ is_running
          (Keeps-except_ec2 P see _ retry_if_unknown
            (Keeps->>= P see (from (services.reservations n instance_id)) _ (λ s. (refl, tt))
              (λ found s. (refl, tt)))
            (λ code s. (refl, tt)))
          is_running-Keeps

    check_status-Keeps :
        (instance_id : String) (n : ℕ)
        → Keeps P see (check_status args services clock instance_id n)
    check_status-Keeps instance_id n =
        Keeps->>= P see (from (services.system_status n instance_id)) _ (λ s. (refl, tt))
          (λ status s. (refl, tt))

    pub configure-Keeps :
        (run_id instance_id : String)
        → Keeps P see (configure args services clock run_id instance_id)
    unfolding configure
    configure-Keeps run_id instance_id =
        Keeps->>= P see (wait_for_running args services clock instance_id) _
          (Keeps-wait_until P see (check_instance args services clock instance_id) other_error
            ec2_run_timeout 0 (check_instance-Keeps instance_id))
          (λ _.
            Keeps->>= P see (wait_for_status args services clock instance_id) _
              (Keeps-wait_until P see (check_status args services clock instance_id) other_error
                ec2_status_timeout 0 (check_status-Keeps instance_id))
              (λ _.
                Keeps->>= P see (poll_sqs_ansible args services clock) _ (λ s. (refl, tt))
                  (λ polled.
                    Keeps->>= P see (create_ami services.images args instance_id run_id) _
                      (create_ami-Keeps services.images args instance_id run_id)
                      (λ ami s. (refl, tt)))))

  module _ (args : Args) (messages : Messages) where
    pub send_hipchat_message-Keeps :
        (message : String) → Keeps P see (send_hipchat_message args messages message)
    unfolding send_hipchat_message
    send_hipchat_message-Keeps message =
        Keeps-if P see (is_given args.callback_url) _ _
          (λ s. (refl, (harmless (get_url _) refl, tt)))
          (Keeps-when P see _ _ (
            Keeps->>= P see (from messages.import_hipchat) _ (λ s. (refl, tt))
              (λ _.
                Keeps-except_exception P see
                  (perform (message_room message) (messages.message_room message)) _
                  (λ s. (refl, (harmless (message_room message) refl, tt))) (λ e s. (refl, tt)))))

    pub report_error-Keeps : (e : Exception) → Keeps P see (report_error args messages e)
    unfolding report_error
    report_error-Keeps e =
        Keeps->>= P see (send_hipchat_message args messages _) _ (send_hipchat_message-Keeps _)
          (λ _ s. (unmarked s, tt))
