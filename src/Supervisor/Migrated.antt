-- ===== src/Supervisor/Migrated.antt =====
-- No service is enabled by pre_supervisor_checks.py before its migrations were seen to have run.
use mathlib.Core.Path.{subst}
use configuration.Base.{
  ℕ, suc, length, true, false, ◌≡◌, refl, sym, ap, ◌∙◌, Option, none, some, List, String, Exception,
  Result, ok, raised, system_exit, other_error, aws_connection_error, All, IsIn, if◌then◌else◌,
  Bool-cases, inl, inr, ◌>>=◌ as ◌>>>=◌, >>=-eq-ok,
}
use configuration.Base.Script.{Script, continue, from, perform, each, except_exception, ◌>>=◌, ◌>>◌}
use configuration.Base.Script.Calls.{when-true}
use configuration.Base.Script.Keeps.{
  Keeps, Keeps-if, Keeps->>=, Keeps->>=_ok, Keeps-each, Keeps-when, Keeps-except_exception,
}
use configuration.Supervisor.Instance.{Edp, Waiting, Instance, services_for_instance}
use configuration.Supervisor.Checks.{Args, Check, check_of, is_abbey}
use configuration.Supervisor.Enable.{
  waited, Call, chdir, link, notify, Host, tell, read_output, run_check, check_migrations,
  available_file, link_location, link_service, enable_service, enable_next, services_now,
  enable_services, error_text, tell_traceback, report_failure, tag_one, tag_volumes, prefix_of,
  start_services, with_edp, main,
}
use configuration.Base.{has_part}

module _ (args : Args) (host : Host) where
  -- If a check is due and its directory is there, the command was run and printed no migration that
  -- has not been run.
  abbrev pub IsMigrated : String → Type 0
  IsMigrated service =
      (c : Check)
      → check_of args service ≡ some c
      → host.exists c.code_dir ≡ true
      → (output : String) × (host.check_output c.command ≡ ok output)
        × (has_part c.mark output ≡ false)

  -- A service that the tags of the instance name.
  abbrev pub IsTagged : String → Type 0
  IsTagged service =
      (n : ℕ) × (reservations : List (List Instance)) × (host.instances n ≡ ok reservations)
      × IsIn (ok service) (services_for_instance host.instance_id reservations)

  abbrev pub IsDue : Call → Type 0
  IsDue (link file location) =
      (service : String) × IsTagged service
      × IsMigrated service
      × (file ≡ available_file args host service)
      × (location ≡ link_location args host service)
      × (host.exists file ≡ true)
  IsDue c = Unit

  abbrev unseen : List String → Unit {0}
  unseen report = tt

  tell-Keeps : (message : String) → Keeps IsDue unseen (tell args host message)
  tell-Keeps message =
      Keeps-when IsDue unseen host.has_hipchat (perform (notify message) (host.send message))
        (λ s. (refl, (tt, tt)))

  run_check-Keeps : (check : Option Check) → Keeps IsDue unseen (run_check args host check)
  run_check-Keeps none s = (refl, tt)
  run_check-Keeps (some c) s =
      Keeps-when IsDue unseen (host.exists c.code_dir) _
        (Keeps->>= IsDue unseen (perform (chdir c.code_dir) (host.chdir c.code_dir))
          (λ _. read_output args host c) (λ s. (refl, (tt, tt)))
          (λ _.
            Keeps->>= IsDue unseen (from (host.check_output c.command)) _ (λ s. (refl, tt))
              (λ output s. (refl, tt))))
        s

  abbrev reading : Check → Result String → Script (List String) Call (Unit {0})
  reading c printed =
      from printed >>= λ output. from (if has_part c.mark output then raised other_error else ok tt)

  abbrev never : Result (Unit {0})
  never = raised other_error

  passed :
      (c : Check) (s : List String) (moved : Result (Unit {0})) (printed : Result String)
      → (continue (λ _. reading c printed) (perform (chdir c.code_dir) moved s)).0 ≡ ok tt
      → (output : String) × (printed ≡ ok output) × (has_part c.mark output ≡ false)
  passed c s (raised x) printed e = absurd (cc e)
  passed c s (ok u) (raised x) e = absurd (cc e)
  passed c s (ok u) (ok output) e = elim (Bool-cases (has_part c.mark output)) [
    | inl marked ↦ absurd (let no_way : never ≡ ok tt = rw marked at e in cc)
    | inr clear ↦ (output, refl, clear)
  ]

  run_check-passed :
      (c : Check) (s : List String)
      → host.exists c.code_dir ≡ true
      → (run_check args host (some c) s).0 ≡ ok tt
      → (output : String) × (host.check_output c.command ≡ ok output)
        × (has_part c.mark output ≡ false)
  run_check-passed c s there e = passed c s (host.chdir c.code_dir) (host.check_output c.command) (
      ap (λ r. r.0)
        (sym (
          when-true (perform (chdir c.code_dir) (host.chdir c.code_dir) >> read_output args host c)
            s (host.exists c.code_dir) there))
      ∙ e)

  check_migrations-Keeps :
      (service : String) → Keeps IsDue unseen (check_migrations args host service)
  unfolding check_migrations
  check_migrations-Keeps service = run_check-Keeps (check_of args service)

  check_migrations-IsMigrated :
      (service : String) (s : List String)
      → (check_migrations args host service s).0 ≡ ok tt
      → IsMigrated service
  unfolding check_migrations
  check_migrations-IsMigrated service s e c due there =
      run_check-passed c s there (ap (λ check. (run_check args host check s).0) (sym due) ∙ e)

  link_service-Keeps :
      (service : String)
      → IsTagged service
      → IsMigrated service
      → Keeps IsDue unseen (link_service args host service)
  unfolding link_service
  link_service-Keeps service tagged migrated =
      elim (Bool-cases (host.exists (available_file args host service))) [
        | inl there ↦ rw there (
            Keeps->>= IsDue unseen
              (perform (link (available_file args host service) (link_location args host service))
                _)
              _ (λ s. (refl, ((service, tagged, migrated, refl, refl, there), tt)))
              (λ _ s. (refl, tt)))
        | inr missing ↦ rw missing (λ s. (refl, tt))
      ]

  enable_next-Keeps :
      (yielded : Result String)
      → ((service : String) → yielded ≡ ok service → IsTagged service)
      → Keeps IsDue unseen (enable_next args host yielded)
  unfolding enable_next
  enable_next-Keeps yielded tagged =
      Keeps->>=_ok IsDue unseen (from yielded) (enable_service args host) (λ s. (refl, tt))
        (λ s service e.
          Keeps->>=_ok IsDue unseen (check_migrations args host service)
            (λ _. link_service args host service) (check_migrations-Keeps service)
            (λ t u passes.
              link_service-Keeps service (tagged service e)
                (check_migrations-IsMigrated service t passes)))

  enable_services-Keeps : (n : ℕ) → Keeps IsDue unseen (enable_services args host n)
  unfolding enable_services
  enable_services-Keeps n =
      Keeps->>=_ok IsDue unseen (from (services_now args host (host.instances n)))
        (each (enable_next args host)) (λ s. (refl, tt))
        (λ s yields e.
          let (reservations, answered, listed) = >>=-eq-ok (host.instances n) _ e in
          Keeps-each IsDue unseen (enable_next args host) yields (λ yielded place.
            enable_next-Keeps yielded (λ service same. (
              n,
              reservations,
              answered,
              subst (λ y. IsIn y (services_for_instance host.instance_id reservations)) same
                  (subst (λ ys. IsIn yielded ys)
                    (let all : yields ≡ services_for_instance host.instance_id reservations = cc in
                      all)
                    place),
            ))))

  tell_traceback-Keeps : (e : Exception) → Keeps IsDue unseen (tell_traceback args host e)
  tell_traceback-Keeps e = elim e as (λ x. Keeps IsDue unseen (tell_traceback args host x)) [
    | aws_connection_error ↦ tell-Keeps (host.traceback aws_connection_error)
    | _ ↦ λ s. (refl, tt)
  ]

  report_failure-Keeps :
      (prefix : String) (e : Exception) → Keeps IsDue unseen (report_failure args host prefix e)
  unfolding report_failure
  report_failure-Keeps prefix e =
      Keeps->>= IsDue unseen
        (tell args host (error_text args host prefix e) >> tell_traceback args host e) _
        (Keeps->>= IsDue unseen (tell args host (error_text args host prefix e))
          (λ _. tell_traceback args host e) (tell-Keeps (error_text args host prefix e))
          (λ _. tell_traceback-Keeps e))
        (λ _ s. (refl, tt))

  tag_volumes-Keeps : (edp : Edp) → Keeps IsDue unseen (tag_volumes args host edp)
  unfolding tag_volumes
  tag_volumes-Keeps edp =
      Keeps-except_exception IsDue unseen (from host.volumes >>= each (tag_one args host edp)) _
        (Keeps->>= IsDue unseen (from host.volumes) (each (tag_one args host edp)) (λ s. (refl, tt))
          (λ volumes.
            Keeps-each IsDue unseen (tag_one args host edp) volumes
              (λ volume place s. (refl, (tt, tt)))))
        (λ e. tell-Keeps _)

  start_services-Keeps : (n : ℕ) (edp : Edp) → Keeps IsDue unseen (start_services args host n edp)
  unfolding start_services
  start_services-Keeps n edp =
      Keeps->>= IsDue unseen (tag_volumes args host edp) _ (tag_volumes-Keeps edp) (λ _.
        Keeps->>= IsDue unseen
          (except_exception (enable_services args host n)
            (report_failure args host (prefix_of args host edp)))
          _
          (Keeps-except_exception IsDue unseen (enable_services args host n)
            (report_failure args host (prefix_of args host edp)) (enable_services-Keeps n)
            (report_failure-Keeps (prefix_of args host edp)))
          (λ _ report. tell-Keeps _ report))

  with_edp-Keeps : (waited : Option Waiting) → Keeps IsDue unseen (with_edp args host waited)
  with_edp-Keeps none s = (refl, tt)
  with_edp-Keeps (some (raised e, sleeps)) s = (refl, tt)
  with_edp-Keeps (some (ok none, sleeps)) s =
      Keeps->>= IsDue unseen (tell args host _) _ (tell-Keeps _) (λ _ s. (refl, tt)) s
  with_edp-Keeps (some (ok (some edp), sleeps)) s =
      start_services-Keeps (suc (suc (length sleeps))) edp s

  pub main-IsDue : (report : List String) → All IsDue (main args host report).2
  unfolding main
  main-IsDue report =
      (Keeps->>= IsDue unseen (from (host.instances 0 >>>= is_abbey))
        (λ abbey.
          if abbey then from (raised (system_exit 1)) else with_edp args host (waited args host))
        (λ s. (refl, tt))
        (λ abbey.
          Keeps-if IsDue unseen abbey _ (with_edp args host (waited args host)) (λ s. (refl, tt))
            (with_edp-Keeps (waited args host)))
        report).1
