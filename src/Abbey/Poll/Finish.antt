-- ===== src/Abbey/Poll/Finish.antt =====
-- How `poll_sqs_ansible` ends, and when it cannot.
use mathlib.Core.Path.{subst}
use configuration.Base.{
  ℕ, suc, ◌+◌, ◌≤◌, ◌<◌, ◌≡◌, refl, sym, ap, ◌∙◌, ◌⊎◌, inl, inr, Bool, true, false, List, [], ◌∷◌,
  arith, length, if◌then◌else◌, key_error, Result, ok, raised, All,
}
use configuration.Abbey.Poll.{
  MsgInfo, SqsMessage, State, start_state, TaskReport, Outcome, polling, finished, num_playbooks,
  receive, is_due, ts_of, insert_info, sort_infos, has_value, all_stamped, show, popped, show_first,
  except_key_error, display, Round, take_turn, poll,
}
use configuration.Abbey.Poll.Shown.{fails, completes, IsStep, show-IsStep}
use configuration.Abbey.Poll.Order.{parsed, receive_lem, insert_info-All}

-- How many of the messages end a playbook.
abbrev pub completions : List MsgInfo → ℕ
completions [] = 0
completions (x ∷ xs) = if completes x.msg then suc (completions xs) else completions xs

completions-insert_info :
    (x : MsgInfo) (ys : List MsgInfo) → completions (insert_info x ys) ≡ completions (x ∷ ys)
completions-insert_info x [] = refl
completions-insert_info x (y ∷ ys) = ground (arith, completions-insert_info x ys)

pub completions-sort_infos : (xs : List MsgInfo) → completions (sort_infos xs) ≡ completions xs
unfolding sort_infos
completions-sort_infos [] = refl
completions-sort_infos (x ∷ xs) =
    ground (arith, completions-insert_info x (sort_infos xs), completions-sort_infos xs)

length-insert_info : (x : MsgInfo) (ys : List MsgInfo) → length (insert_info x ys) ≡ suc (length ys)
length-insert_info x [] = refl
length-insert_info x (y ∷ ys) = ground (arith, length-insert_info x ys)

length-sort_infos : (xs : List MsgInfo) → length (sort_infos xs) ≡ length xs
unfolding sort_infos
length-sort_infos [] = refl
length-sort_infos (x ∷ xs) =
    ground (arith, length-insert_info x (sort_infos xs), length-sort_infos xs)

-- Received by a given time, with a "TS", and no failure.
abbrev pub IsReady : ℕ → MsgInfo → Type 0
IsReady latest x = (x.recv_ts ≤ latest) × (has_value (ts_of x) ≡ true) × (fails x.msg ≡ false)

sort_infos-All :
    (latest : ℕ) (xs : List MsgInfo)
    → All (IsReady latest) xs
    → All (IsReady latest) (sort_infos xs)
unfolding sort_infos
sort_infos-All latest [] h = tt
sort_infos-All latest (x ∷ xs) h =
    insert_info-All (IsReady latest) x (sort_infos xs) h.0 (sort_infos-All latest xs h.1)

all_stamped_ready :
    (latest : ℕ) (xs : List MsgInfo) → All (IsReady latest) xs → all_stamped xs ≡ true
all_stamped_ready latest [] h = refl
all_stamped_ready latest (x ∷ xs) h = ground (arith, h.0.1, all_stamped_ready latest xs h.1)

-- After a turn: the end, or one message less.
abbrev Turns : MsgInfo → List MsgInfo → State → Result Outcome → Type 0
Turns x rest s r =
    ((ts : ℕ) × (report : List TaskReport) × (r ≡ ok (finished ts report)))
    ⊎ ((s' : State) × (r ≡ ok (polling s'))
        × (s'.buf ≡ rest)
        × (s'.completed ≡ (if completes x.msg then suc s.completed else s.completed))
        × (s'.completed < num_playbooks))

counts_below :
    (ends : Bool) (c n : ℕ)
    → n ≡ (if ends then suc c else c)
    → (ends ≡ true → suc c < num_playbooks)
    → c < num_playbooks
    → n < num_playbooks
counts_below true c n e more h = let b = more refl in omega arith
counts_below false c n e more h = omega arith

turn_cases :
    (x : MsgInfo) (rest : List MsgInfo) (s : State) (r : Result Outcome)
    → IsStep x.msg (popped x rest s) r
    → fails x.msg ≡ false
    → s.completed < num_playbooks
    → Turns x rest s (except_key_error r (popped x rest s))
turn_cases x rest s (raised key_error) step fine h =
    inr (popped x rest s, refl, refl, rw step refl, h)
turn_cases x rest s (raised e) step fine h = absurd (let q : true ≡ false = sym step ∙ fine in cc)
turn_cases x rest s (ok (finished ts report)) step fine h = inl (ts, report, refl)
turn_cases x rest s (ok (polling t)) step fine h = inr (
  t,
  refl,
  step.0,
  step.2,
  counts_below (completes x.msg) s.completed t.completed step.2 step.3 h,
)

owes_less :
    (ends : Bool) (n c total : ℕ)
    → (if ends then suc n else n) ≡ total
    → num_playbooks ≤ total + c
    → num_playbooks ≤ n + (if ends then suc c else c)
owes_less true n c total e h = omega arith
owes_less false n c total e h = omega arith

completions-le-length : (xs : List MsgInfo) → completions xs ≤ length xs
completions-le-length [] = omega arith
completions-le-length (x ∷ xs) = ground (arith, completions-le-length xs)

is_due_ready :
    (latest msg_delay now : ℕ) (xs : List MsgInfo)
    → All (IsReady latest) xs
    → 0 < length xs
    → latest + msg_delay < now
    → is_due msg_delay now xs ≡ true
is_due_ready latest msg_delay now [] h more late = absurd (omega arith)
is_due_ready latest msg_delay now (x ∷ xs) h more late = let old = h.0.0 in ground arith

-- A round that finds no message, when all that came by the given time are old enough.
abbrev pub IsQuiet : ℕ → ℕ → Round → Type 0
IsQuiet msg_delay latest r = (r.messages ≡ []) × (latest + msg_delay < r.now)

module _ (verbose : Bool) (msg_delay latest : ℕ) where
  record Owes (rounds : List Round) (s : State) : Type 0 where
    ready : All (IsReady latest) s.buf
    open_ : s.completed < num_playbooks
    enough : num_playbooks ≤ completions s.buf + s.completed
    time : length s.buf ≤ length rounds

  Owes-later :
      (r : Round) (rounds : List Round) (x : MsgInfo) (rest : List MsgInfo) (s s' : State)
      → Owes (r ∷ rounds) s
      → sort_infos s.buf ≡ x ∷ rest
      → s'.buf ≡ rest
      → s'.completed ≡ (if completes x.msg then suc s.completed else s.completed)
      → s'.completed < num_playbooks
      → Owes rounds s'
  Owes-later r rounds x rest s s' o e same count below =
      let sorted : All (IsReady latest) (x ∷ rest) =
        subst (All (IsReady latest)) e (sort_infos-All latest s.buf o.ready) in
      let counts = ap completions (sym e) ∙ completions-sort_infos s.buf in
      let lengths : suc (length rest) ≡ length s.buf =
        ap length (sym e) ∙ length-sort_infos s.buf in
      record {
        ready = rw same sorted.1;
        open_ = below;
        enough =
            rw (same, count)
              (owes_less (completes x.msg) (completions rest) s.completed (completions s.buf) counts
                o.enough);
        time = rw same (let t = o.time in omega (arith, lengths));
      }

  turn_of :
      (r : Round) (rounds : List Round) (s : State)
      → IsQuiet msg_delay latest r
      → Owes (r ∷ rounds) s
      → take_turn verbose msg_delay r.now (receive r.messages s)
        ≡ show_first verbose (sort_infos s.buf) s
  unfolding receive display
  turn_of r rounds s quiet o =
      let some_left : 0 < length s.buf =
        let a = o.open_ in let b = o.enough in omega (arith, completions-le-length s.buf) in
      rw
        (
          quiet.0,
          is_due_ready latest msg_delay r.now s.buf o.ready some_left quiet.1,
          all_stamped_ready latest s.buf o.ready,
        )
        refl

  Ends : List Round → State → Type 0
  unfolding poll
  Ends rounds s =
      (ts : ℕ) × (report : List TaskReport) × (poll verbose msg_delay rounds s
        ≡ ok (finished ts report))

  Ends-sorted :
      (r : Round) (rounds : List Round) (s : State) (sorted : List MsgInfo)
      → sort_infos s.buf ≡ sorted
      → All (IsQuiet msg_delay latest) (r ∷ rounds)
      → Owes (r ∷ rounds) s
      → ((s' : State) → Owes rounds s' → Ends rounds s')
      → Ends (r ∷ rounds) s
  unfolding Ends poll
  Ends-sorted r rounds s [] e quiet o ends_later =
      let none_left : 0 ≡ length s.buf = ap length (sym e) ∙ length-sort_infos s.buf in
      let a = o.open_ in let b = o.enough in absurd (omega (arith, completions-le-length s.buf))
  Ends-sorted r rounds s (x ∷ rest) e quiet o ends_later =
      let sorted : All (IsReady latest) (x ∷ rest) =
        subst (All (IsReady latest)) e (sort_infos-All latest s.buf o.ready) in
      let turned = turn_of r rounds s quiet.0 o in
      elim (turn_cases x rest s (show verbose x.msg (popped x rest s))
        (show-IsStep verbose x.msg (popped x rest s)) sorted.0.2 o.open_) [
          | inl (ts, report, end) ↦ (ts, report, rw (turned, e, end) refl)
          | inr (s', next, same, count, below) ↦
              let (ts, report, end) =
                ends_later s' (Owes-later r rounds x rest s s' o e same count below) in
              (ts, report, rw (turned, e, next) end)
        ]

  Ends-quiet :
      (rounds : List Round) (s : State)
      → All (IsQuiet msg_delay latest) rounds
      → Owes rounds s
      → Ends rounds s
  Ends-quiet [] s quiet o =
      let t = o.time in
      let a = o.open_ in let b = o.enough in absurd (omega (arith, completions-le-length s.buf))
  Ends-quiet (r ∷ rounds) s quiet o =
      Ends-sorted r rounds s (sort_infos s.buf) refl quiet o
        (λ s' o'. Ends-quiet rounds s' quiet.1 o')

  -- If the messages that have come can all be shown, none is a failure and two of them at least end a
  -- playbook, then as many rounds as there are messages, late enough for all of them, end the poll.
  pub poll-finished :
      (messages : List SqsMessage) (now : ℕ) (rounds : List Round)
      → All (IsReady latest) (parsed messages)
      → num_playbooks ≤ completions (parsed messages)
      → latest + msg_delay < now
      → All (IsQuiet msg_delay latest) rounds
      → length (parsed messages) ≤ suc (length rounds)
      → (ts : ℕ) × (report : List TaskReport) × (poll verbose msg_delay
            (record { messages = messages; now = now } ∷ rounds)
            start_state
          ≡ ok (finished ts report))
  unfolding poll Ends receive
  poll-finished messages now rounds ready enough late quiet time =
      let s = receive messages start_state in
      let (bufs, deletions, counts, reports) = receive_lem messages start_state in
      let o : Owes (record { messages = []; now = now } ∷ rounds) s = record {
        ready = rw bufs ready;
        open_ = rw counts (omega arith);
        enough = rw (bufs, counts) (omega (arith, enough));
        time = rw bufs time;
      } in
      Ends-quiet (record { messages = []; now = now } ∷ rounds) s ((refl, late), quiet) o
