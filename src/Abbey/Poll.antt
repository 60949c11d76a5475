-- ===== src/Abbey/Poll.antt =====
-- `poll_sqs_ansible` of util/vpc-tools/abbey.py. Times are in thousandths of a second, so that they
-- are natural numbers; a "TS" and a "delta" are numbers that are only compared and passed on. What
-- the function prints is left out.
pub mod Shown
pub mod Order
pub mod Finish
pub mod Enough
use configuration.Base.{
  ℕ, suc, ◌+◌, ◌*◌, Bool, true, false, ◌&&◌, ◌||◌, Option, none, some, List, [], ◌∷◌, ◌++◌, String,
  ◌==◌, nat_eq, string_eq, ltb, leb, if◌then◌else◌, Result, ok, raised, key_error, name_error,
  other_error, ◌>>=◌, ◌>>◌,
}

-- The value under "OK".
pub record Invocation : Type 0 where
  pub text : String
  pub module_name : Option String

pub record TaskResult : Type 0 where
  pub invocation : Option Invocation
  pub changed : Option Bool

-- A message's JSON object, by the keys that are looked at.
pub record Event : Type 0 where
  pub ts : Option ℕ
  pub delta : Option ℕ
  pub prefix : Option String
  pub start : Option String
  pub task : Option String
  pub ok_ : Option TaskResult
  pub failure : Bool
  pub stats : Bool

-- An entry of `buf`.
pub record MsgInfo : Type 0 where
  pub msg : Event
  pub sent_ts : ℕ
  pub recv_ts : ℕ

-- A message of the queue; a body that is no JSON is `none`.
pub record SqsMessage : Type 0 where
  pub body : Option Event
  pub sent : ℕ
  pub received : ℕ

-- An entry of `task_report`.
pub record TaskReport : Type 0 where
  pub task : Option String
  pub invocation : Invocation
  pub delta : ℕ

pub record State : Type 0 where
  pub oldest_msg_ts : ℕ
  pub buf : List MsgInfo
  pub task_report : List TaskReport
  pub last_task : Option String
  pub completed : ℕ
  pub to_disp : Option MsgInfo
  pub deleted : List SqsMessage

abbrev pub start_state : State
start_state = record {
  oldest_msg_ts = 0;
  buf = [];
  task_report = [];
  last_task = none;
  completed = 0;
  to_disp = none;
  deleted = [];
}

abbrev pub num_playbooks : ℕ
num_playbooks = 2

pub data Outcome : Type 0 where
  polling : State → Outcome
  finished : ℕ → List TaskReport → Outcome

abbrev pub found {ℓ} : {A : Type ℓ} → Option A → Result A
found none = raised key_error
found (some a) = ok a

abbrev pub keep : SqsMessage → Option Event → List MsgInfo → List MsgInfo
keep m none buf = buf
keep m (some msg) buf = buf ++ record { msg = msg; sent_ts = m.sent; recv_ts = m.received } ∷ []

unfoldable pub receive : List SqsMessage → State → State
receive [] s = s
receive (m ∷ messages) s = receive messages (record s {
  buf = keep m m.body s.buf;
  oldest_msg_ts =
      if s.oldest_msg_ts == 0 || ltb m.received s.oldest_msg_ts
      then m.received
      else s.oldest_msg_ts;
  deleted = s.deleted ++ m ∷ [];
})

-- `now - min(recv_ts) > msg_delay`: some message is older than the delay.
abbrev pub is_due : ℕ → ℕ → List MsgInfo → Bool
is_due msg_delay now [] = false
is_due msg_delay now (x ∷ xs) = ltb (x.recv_ts + msg_delay) now || is_due msg_delay now xs

abbrev pub ts_of : MsgInfo → Option ℕ
ts_of x = x.msg.ts

abbrev pub goes_first : Option ℕ → Option ℕ → Bool
goes_first (some a) (some b) = leb a b
goes_first _ _ = true

abbrev pub insert_info : MsgInfo → List MsgInfo → List MsgInfo
insert_info x [] = x ∷ []
insert_info x (y ∷ ys) =
    let rest = insert_info x ys in if goes_first (ts_of x) (ts_of y) then x ∷ y ∷ ys else y ∷ rest

unfoldable pub sort_infos : List MsgInfo → List MsgInfo
sort_infos [] = []
sort_infos (x ∷ xs) = insert_info x (sort_infos xs)

abbrev pub has_value {ℓ} : {A : Type ℓ} → Option A → Bool
has_value none = false
has_value (some a) = true

abbrev pub all_stamped : List MsgInfo → Bool
all_stamped [] = true
all_stamped (x ∷ xs) = has_value (ts_of x) && all_stamped xs

-- `to_disp['msg']['TS']` and `to_disp['msg']['PREFIX']`
abbrev pub heading : Event → Result ℕ
heading msg = do ts ← found msg.ts; prefix ← found msg.prefix; ok ts

abbrev pub module_changed : Option Bool → String → Result (Unit {0})
module_changed changed module_name =
    if module_name == "set_fact" then ok tt else (found changed >>= λ _. ok tt)

-- What is printed of a task that went well.
abbrev pub print_ok : Bool → TaskResult → Result (Unit {0})
print_ok true result = ok tt
print_ok false result = do
  invocation ← found result.invocation
  module_name ← found invocation.module_name
  module_changed result.changed module_name

unfoldable pub show_ok : Bool → Event → TaskResult → State → Result Outcome
show_ok verbose msg result s = do
  print_ok verbose result
  invocation ← found result.invocation
  delta ← found msg.delta
  ok (
      polling (record s {
        task_report =
            s.task_report
            ++ record { task = s.last_task; invocation = invocation; delta = delta } ∷ [];
      }))

unfoldable pub show_stats : Event → State → Result Outcome
show_stats msg s = do
  ts ← heading msg
  ok (
      if leb num_playbooks (suc s.completed)
      then finished ts s.task_report
      else polling (record s { completed = suc s.completed }))

abbrev pub show_rest : Event → State → Result Outcome
show_rest msg s =
    if msg.failure
    then raised other_error
    else if msg.stats
    then show_stats msg s
    else ok (polling s)

abbrev pub show_result : Bool → Event → Option TaskResult → State → Result Outcome
show_result verbose msg (some result) s = show_ok verbose msg result s
show_result verbose msg none s = show_rest msg s

abbrev pub show_task : Bool → Event → Option String → State → Result Outcome
show_task verbose msg (some task) s =
    heading msg >>= λ _. ok (polling (record s { last_task = some task }))
show_task verbose msg none s = show_result verbose msg msg.ok_ s

-- The chain of `if 'START' in … elif 'TASK' in …`.
unfoldable pub show : Bool → Event → State → Result Outcome
show verbose msg s =
    if has_value msg.start
    then (heading msg >>= λ _. ok (polling s))
    else show_task verbose msg msg.task s

-- `except KeyError`, which prints `to_disp`: a `NameError` if there is none yet.
abbrev pub report_to_disp : Option MsgInfo → State → Result Outcome
report_to_disp none s = raised name_error
report_to_disp (some x) s = ok (polling s)

abbrev pub except_key_error : Result Outcome → State → Result Outcome
except_key_error (raised key_error) s = report_to_disp s.to_disp s
except_key_error (raised x) s = raised x
except_key_error (ok outcome) s = ok outcome

-- The state once the first of the sorted messages is taken off.
abbrev pub popped : MsgInfo → List MsgInfo → State → State
popped x rest s = record s { buf = rest; to_disp = some x }

abbrev pub show_first : Bool → List MsgInfo → State → Result Outcome
show_first verbose [] s = raised other_error
show_first verbose (x ∷ rest) s =
    except_key_error (show verbose x.msg (popped x rest s)) (popped x rest s)

-- The `try` block. Sorting by "TS" raises a `KeyError` if a message has none.
unfoldable pub display : Bool → State → Result Outcome
unfolding show sort_infos
display verbose s =
    if all_stamped s.buf
    then show_first verbose (sort_infos s.buf) s
    else except_key_error (raised key_error) s

-- What one round of the loop finds: the messages of the queue and the time.
pub record Round : Type 0 where
  pub messages : List SqsMessage
  pub now : ℕ

module _ (verbose : Bool) (msg_delay : ℕ) where
  abbrev pub take_turn : ℕ → State → Result Outcome
  take_turn now s = if is_due msg_delay now s.buf then display verbose s else ok (polling s)

  unfoldable pub poll : List Round → State → Result Outcome
  unfolding display receive
  poll [] s = ok (polling s)
  poll (r ∷ rounds) s = do
    outcome ← take_turn r.now (receive r.messages s)
    elim outcome [ polling s' ↦ poll rounds s' | finished ts report ↦ ok (finished ts report) ]
