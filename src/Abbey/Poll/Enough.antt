-- ===== src/Abbey/Poll/Enough.antt =====
-- What must have come before `poll_sqs_ansible` ends, and what keeps it from ending.
use configuration.Base.{
  ℕ, suc, ◌+◌, ◌≤◌, ◌≡◌, ◌≢◌, refl, sym, ap, ◌∙◌, ◌⊎◌, inl, inr, Bool, true, false, ◌&&◌, List, [],
  ◌∷◌, ◌++◌, arith, if◌then◌else◌, key_error, name_error, Result, ok, raised, ◌>>=◌, Bool-cases,
  Option-cases,
}
use configuration.Abbey.Poll.{
  MsgInfo, State, start_state, TaskReport, Outcome, polling, finished, num_playbooks, receive,
  is_due, sort_infos, all_stamped, show, popped, show_first, except_key_error, display, Round,
  take_turn, poll,
}
use configuration.Abbey.Poll.Shown.{completes, IsStep, show-IsStep}
use configuration.Abbey.Poll.Order.{parsed, receive_lem}
use configuration.Abbey.Poll.Finish.{completions, completions-sort_infos}

all_stamped-append :
    (xs ys : List MsgInfo) → all_stamped (xs ++ ys) ≡ (all_stamped xs && all_stamped ys)
all_stamped-append [] ys = refl
all_stamped-append (x ∷ xs) ys = ground (arith, all_stamped-append xs ys)

completions-append :
    (xs ys : List MsgInfo) → completions (xs ++ ys) ≡ completions xs + completions ys
completions-append [] ys = omega arith
completions-append (x ∷ xs) ys = ground (arith, completions-append xs ys)

-- The playbooks whose end has been counted or waits in the buffer.
abbrev total : State → ℕ
total s = s.completed + completions s.buf

abbrev Counts : State → Result Outcome → Type 0
Counts s (raised e) = Unit
Counts s (ok (finished ts report)) = num_playbooks ≤ total s
Counts s (ok (polling s')) = total s' ≡ total s

count_ends :
    (ends : Bool) (c n total : ℕ)
    → (if ends then suc n else n) ≡ total
    → (if ends then suc c else c) + n ≡ c + total
count_ends true c n total e = omega arith
count_ends false c n total e = omega arith

except-Counts :
    (x : MsgInfo) (rest : List MsgInfo) (s : State) (r : Result Outcome)
    → completions (x ∷ rest) ≡ completions s.buf
    → IsStep x.msg (popped x rest s) r
    → Counts s (except_key_error r (popped x rest s))
except-Counts x rest s (raised key_error) e step =
    let q : completions rest ≡ completions s.buf = rw step at e in omega arith
except-Counts x rest s (raised y) e step = tt
except-Counts x rest s (ok (finished ts report)) e step =
    let last = step.1 in
    let q : suc (completions rest) ≡ completions s.buf = rw step.0 at e in omega arith
except-Counts x rest s (ok (polling t)) e step =
    rw (step.0, step.2)
      (count_ends (completes x.msg) s.completed (completions rest) (completions s.buf) e)

unstamped_display :
    (verbose : Bool) (s : State)
    → all_stamped s.buf ≡ false
    → (display verbose s ≡ ok (polling s)) ⊎ (display verbose s ≡ raised name_error)
unfolding display
unstamped_display verbose s h = elim (Option-cases s.to_disp) [
  | inl nothing ↦ inr (rw (h, nothing) refl)
  | inr (x, e) ↦ inl (rw (h, e) refl)
]

-- The entries for all messages of all rounds.
abbrev pub received : List Round → List MsgInfo
received [] = []
received (r ∷ rounds) = parsed r.messages ++ received rounds

module _ (verbose : Bool) where
  sorted-Counts :
      (s : State) (sorted : List MsgInfo)
      → sort_infos s.buf ≡ sorted
      → Counts s (show_first verbose sorted s)
  sorted-Counts s [] e = tt
  sorted-Counts s (x ∷ rest) e =
      except-Counts x rest s (show verbose x.msg (popped x rest s))
        (ap completions (sym e) ∙ completions-sort_infos s.buf)
        (show-IsStep verbose x.msg (popped x rest s))

  display-Counts : (s : State) → Counts s (display verbose s)
  display-Counts s = elim (Bool-cases (all_stamped s.buf)) [
    | inl stamped ↦ unfold display in rw stamped (sorted-Counts s (sort_infos s.buf) refl)
    | inr unstamped ↦ elim (unstamped_display verbose s unstamped) [
      | inl same ↦ rw same refl
      | inr failed ↦ rw failed tt
    ]
  ]

  module _ (msg_delay : ℕ) where
    turn-Counts : (now : ℕ) (s : State) → Counts s (take_turn verbose msg_delay now s)
    turn-Counts now s = elim (Bool-cases (is_due msg_delay now s.buf)) [
      | inl due ↦ rw due (display-Counts s)
      | inr early ↦ rw early refl
    ]

    enough_step :
        (r : Result Outcome) (rounds : List Round) (s : State) (ts : ℕ) (report : List TaskReport)
        → Counts s r
        → (r >>= λ outcome. elim outcome [
          | polling s' ↦ poll verbose msg_delay rounds s'
          | finished t p ↦ ok (finished t p)
        ])
          ≡ ok (finished ts report)
        → ((s' : State)
            → poll verbose msg_delay rounds s' ≡ ok (finished ts report)
            → num_playbooks ≤ total s' + completions (received rounds))
        → num_playbooks ≤ total s + completions (received rounds)
    enough_step (raised e) rounds s ts report counts h later = absurd (cc h)
    enough_step (ok (finished t p)) rounds s ts report counts h later = omega arith
    enough_step (ok (polling s')) rounds s ts report counts h later =
        let q = later s' h in omega arith

    poll_enough :
        (rounds : List Round) (s : State) (ts : ℕ) (report : List TaskReport)
        → poll verbose msg_delay rounds s ≡ ok (finished ts report)
        → num_playbooks ≤ total s + completions (received rounds)
    unfolding poll
    poll_enough [] s ts report h = absurd (cc h)
    poll_enough (r ∷ rounds) s ts report h =
        let s' = receive r.messages s in
        let (bufs, deletions, counts, reports) = receive_lem r.messages s in
        let q =
          enough_step (take_turn verbose msg_delay r.now s') rounds s' ts report
            (turn-Counts r.now s') h (λ t. poll_enough rounds t ts report) in
        let q' : num_playbooks
            ≤ s.completed
              + completions (s.buf ++ parsed r.messages)
              + completions (received rounds) =
          rw (counts, bufs) at q in
        omega (
          arith,
          completions-append s.buf (parsed r.messages),
          completions-append (parsed r.messages) (received rounds),
        )

    -- The poll ends well only if messages have come that end two playbooks.
    pub poll_finished-completions :
        (rounds : List Round) (ts : ℕ) (report : List TaskReport)
        → poll verbose msg_delay rounds start_state ≡ ok (finished ts report)
        → num_playbooks ≤ completions (received rounds)
    poll_finished-completions rounds ts report h =
        let q = poll_enough rounds start_state ts report h in omega arith

    unstamped_turn :
        (now : ℕ) (s : State)
        → all_stamped s.buf ≡ false
        → (take_turn verbose msg_delay now s ≡ ok (polling s))
          ⊎ (take_turn verbose msg_delay now s ≡ raised name_error)
    unstamped_turn now s h = elim (Bool-cases (is_due msg_delay now s.buf)) [
      | inl due ↦ rw due (unstamped_display verbose s h)
      | inr early ↦ inl (rw early refl)
    ]

    -- A message without a "TS" in the buffer keeps the poll from ever ending well: each round leaves
    -- the buffer as it is or raises a `NameError`.
    pub poll_unstamped :
        (rounds : List Round) (s : State) (ts : ℕ) (report : List TaskReport)
        → all_stamped s.buf ≡ false
        → poll verbose msg_delay rounds s ≢ ok (finished ts report)
    unfolding poll
    poll_unstamped [] s ts report unstamped h = cc
    poll_unstamped (r ∷ rounds) s ts report unstamped h =
        let s' = receive r.messages s in
        let (bufs, deletions, counts, reports) = receive_lem r.messages s in
        let still : all_stamped s'.buf ≡ false =
          rw bufs (all_stamped-append s.buf (parsed r.messages) ∙ rw unstamped refl) in
        elim (unstamped_turn r.now s' still) [
          | inl same ↦ poll_unstamped rounds s' ts report still (rw same at h)
          | inr failed ↦ let q : raised name_error ≡ ok (finished ts report) = rw failed at h in cc
        ]
