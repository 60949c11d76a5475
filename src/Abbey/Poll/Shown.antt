-- ===== src/Abbey/Poll/Shown.antt =====
-- What displaying one message does to the state of `poll_sqs_ansible`.
use configuration.Base.{
  ℕ, suc, ◌≤◌, ◌<◌, ◌≡◌, refl, ◌⊎◌, inl, inr, Bool, true, false, not, ◌&&◌, Option, none, some,
  List, String, arith, leb, leb→le, if◌then◌else◌, key_error, other_error, Result, ok, raised,
  ◌>>=◌, Bool-cases, Option-cases, ◌∙◌, ◌==◌, string_eq,
}
use configuration.Abbey.Poll.{
  TaskResult, Event, MsgInfo, State, Outcome, polling, finished, num_playbooks, found, has_value,
  heading, module_changed, print_ok, show_ok, show_stats, show_result, show_task, show, popped,
  except_key_error,
}

-- The message is none of those that are looked for before "FAILURE".
abbrev pub is_late : Event → Bool
is_late msg = not (has_value msg.start) && not (has_value msg.task) && not (has_value msg.ok_)

abbrev pub fails : Event → Bool
fails msg = is_late msg && msg.failure

-- The end of a playbook, with all that is printed of it.
abbrev pub completes : Event → Bool
completes msg =
    is_late msg && not msg.failure && msg.stats && has_value msg.ts && has_value msg.prefix

-- A step from a state: a missing key that is no end of a playbook, the error of a failure, the end
-- of the last playbook, or a state that has counted the end of another.
abbrev pub IsStep : Event → State → Result Outcome → Type 0
IsStep msg s (raised key_error) = completes msg ≡ false
IsStep msg s (raised x) = fails msg ≡ true
IsStep msg s (ok (finished ts report)) = (completes msg ≡ true) × (num_playbooks ≤ suc s.completed)
IsStep msg s (ok (polling s')) =
    (s'.buf ≡ s.buf)
    × (s'.to_disp ≡ s.to_disp)
    × (s'.completed ≡ (if completes msg then suc s.completed else s.completed))
    × (completes msg ≡ true → suc s.completed < num_playbooks)

module_changed_cases :
    (changed : Option Bool) (m : String)
    → (module_changed changed m ≡ ok tt) ⊎ (module_changed changed m ≡ raised key_error)
module_changed_cases changed m = elim (Bool-cases (m == "set_fact")) [
  | inl set_fact ↦ inl (rw set_fact refl)
  | inr other ↦ elim (Option-cases changed) [
    | inl missing ↦ inr (rw (other, missing) refl)
    | inr (c, e) ↦ inl (rw (other, e) refl)
  ]
]

print_ok_cases :
    (verbose : Bool) (r : TaskResult)
    → (print_ok verbose r ≡ ok tt) ⊎ (print_ok verbose r ≡ raised key_error)
print_ok_cases true r = inl refl
print_ok_cases false r = elim (Option-cases r.invocation) [
  | inl missing ↦ inr (rw missing refl)
  | inr (i, e) ↦ elim (Option-cases i.module_name) [
    | inl missing ↦ inr (rw (e, missing) refl)
    | inr (m, named) ↦ rw (e, named) (module_changed_cases r.changed m)
  ]
]

heading_cases :
    (msg : Event)
    → ((has_value msg.ts && has_value msg.prefix ≡ true) × ((t : ℕ) × (heading msg ≡ ok t)))
      ⊎ ((has_value msg.ts && has_value msg.prefix ≡ false) × (heading msg ≡ raised key_error))
heading_cases msg = elim (Option-cases msg.ts) [
  | inl missing ↦ inr (rw missing (refl, refl))
  | inr (t, e) ↦ elim (Option-cases msg.prefix) [
    | inl missing ↦ inr (rw (e, missing) (refl, refl))
    | inr (p, e') ↦ inl (rw (e, e') (refl, (t, refl)))
  ]
]

module _ (verbose : Bool) (msg : Event) (s : State) where
  found-IsStep {ℓ} :
      {A : Type ℓ} (o : Option A) (next : A → Result Outcome)
      → completes msg ≡ false
      → ((a : A) → IsStep msg s (next a))
      → IsStep msg s (found o >>= next)
  found-IsStep none next h hs = h
  found-IsStep (some a) next h hs = hs a

  heading-IsStep :
      (next : ℕ → Result Outcome)
      → completes msg ≡ false
      → ((t : ℕ) → IsStep msg s (next t))
      → IsStep msg s (heading msg >>= next)
  heading-IsStep next h hs = elim (heading_cases msg) [
    | inl (there, (t, e)) ↦ rw e (hs t)
    | inr (missing, e) ↦ rw e h
  ]

  -- A state that differs in none of what a step speaks of, where no playbook has ended.
  same-IsStep :
      (s' : State)
      → completes msg ≡ false
      → s'.buf ≡ s.buf
      → s'.to_disp ≡ s.to_disp
      → s'.completed ≡ s.completed
      → IsStep msg s (ok (polling s'))
  same-IsStep s' h b d c = (b, d, rw h c, λ e. ground arith)

  show_ok-IsStep : (r : TaskResult) → completes msg ≡ false → IsStep msg s (show_ok verbose msg r s)
  unfolding show_ok
  show_ok-IsStep r h = elim (print_ok_cases verbose r) [
    | inl printed ↦ rw printed (
        found-IsStep r.invocation _ h
          (λ i. found-IsStep msg.delta _ h (λ d. (refl, refl, rw h refl, λ e. ground arith))))
    | inr missing ↦ rw missing h
  ]

  counted-IsStep :
      (ts : ℕ)
      → completes msg ≡ true
      → IsStep msg s (
          ok (
            if leb num_playbooks (suc s.completed)
            then finished ts s.task_report
            else polling (record s { completed = suc s.completed })))
  counted-IsStep ts h = elim (Bool-cases (leb num_playbooks (suc s.completed))) [
    | inl last ↦ rw last (h, leb→le num_playbooks (suc s.completed) last)
    | inr more ↦ rw more (refl, refl, rw h refl, λ e. ground arith)
  ]

  show_stats-IsStep :
      completes msg ≡ (has_value msg.ts && has_value msg.prefix) → IsStep msg s (show_stats msg s)
  unfolding show_stats
  show_stats-IsStep h = elim (heading_cases msg) [
    | inl (there, (t, e)) ↦ rw e (counted-IsStep t (h ∙ there))
    | inr (missing, e) ↦ rw e (h ∙ missing)
  ]

  stats-IsStep :
      (is_stats : Bool)
      → msg.stats ≡ is_stats
      → is_late msg ≡ true
      → msg.failure ≡ false
      → IsStep msg s (if is_stats then show_stats msg s else ok (polling s))
  stats-IsStep true e late fine = show_stats-IsStep (ground arith)
  stats-IsStep false e late fine = same-IsStep s (ground arith) refl refl refl

  rest-IsStep :
      (failed : Bool)
      → msg.failure ≡ failed
      → is_late msg ≡ true
      → IsStep msg s (
          if failed
          then raised other_error
          else if msg.stats
          then show_stats msg s
          else ok (polling s))
  rest-IsStep true e late = ground arith
  rest-IsStep false e late = stats-IsStep msg.stats refl late e

  result-IsStep :
      (result : Option TaskResult)
      → msg.ok_ ≡ result
      → msg.start ≡ none
      → msg.task ≡ none
      → IsStep msg s (show_result verbose msg result s)
  result-IsStep (some r) e a b = show_ok-IsStep r (ground arith)
  result-IsStep none e a b = rest-IsStep msg.failure refl (ground arith)

  task-IsStep :
      (task : Option String)
      → msg.task ≡ task
      → msg.start ≡ none
      → IsStep msg s (show_task verbose msg task s)
  task-IsStep (some t) e a =
      let early : completes msg ≡ false = ground arith in
      heading-IsStep _ early (λ ts. (refl, refl, rw early refl, λ e. ground arith))
  task-IsStep none e a = result-IsStep msg.ok_ refl a e

  start-IsStep :
      (start : Option String)
      → msg.start ≡ start
      → IsStep msg s (
          if has_value start
          then (heading msg >>= λ _. ok (polling s))
          else show_task verbose msg msg.task s)
  start-IsStep (some t) e =
      let early : completes msg ≡ false = ground arith in
      heading-IsStep _ early (λ ts. same-IsStep s early refl refl refl)
  start-IsStep none e = task-IsStep msg.task refl e

  pub show-IsStep : IsStep msg s (show verbose msg s)
  unfolding show
  show-IsStep = start-IsStep msg.start refl

pub stays_popped :
    (x : MsgInfo) (rest : List MsgInfo) (s s' : State) (r : Result Outcome)
    → IsStep x.msg (popped x rest s) r
    → except_key_error r (popped x rest s) ≡ ok (polling s')
    → (s'.buf ≡ rest) × (s'.to_disp ≡ some x)
stays_popped x rest s s' (raised key_error) step h = ground arith
stays_popped x rest s s' (raised e) step h = absurd (cc h)
stays_popped x rest s s' (ok (finished ts report)) step h = absurd (cc h)
stays_popped x rest s s' (ok (polling t)) step h = ground arith
