-- ===== src/Callbacks/Timing/Log.antt =====
-- The file that the JSON logger writes, and what is read back from its lines.
use mathlib.Core.Path.{subst}
use Prim.Native.Char.{Char, code}
use Prim.Native.String.{◌++◌ as ◌<>◌}
use text.Mathlib.TextLemmas.{nil-append, cons-append, append_assoc}
use configuration.Base.{
  ℕ, Bool, Option, none, some, ◌≡◌, refl, sym, List, [], ◌∷◌, ◌++◌, map, String, ◌==◌, string_eq,
  nat_beq, beq_refl, if◌then◌else◌, Result, ok, Dict, All, split_by, IsPart, split_by-append, not,
  ◌&&◌, is_empty, dirname, Bool-cases, inl, inr,
}
use configuration.Base.Script.{Run, each}
use configuration.Callbacks.Timing.Stamp.{pos, Timestamp}
use configuration.Callbacks.Timing.Loggers.{
  Message, Call, send_tasks, send_play, info, failed, make_dirs, write, Host, message_of,
  task_messages, messages_of, write_message, write_log, json_log_to, json_log_play,
}
use configuration.Callbacks.Timing.Stopped.{IsStopped, AllStopped, cost, minus-le}

-- What was written to a file, in its order.
abbrev pub content : String → List Call → String
content path [] = ""
content path (write file text ∷ calls) =
    let rest = content path calls in if file == path then text <> rest else rest
content path (send_tasks ms ∷ calls) = content path calls
content path (send_play m ∷ calls) = content path calls
content path (info line ∷ calls) = content path calls
content path (failed text ∷ calls) = content path calls
content path (make_dirs log_dir ∷ calls) = content path calls

abbrev is_newline : Char → Bool
is_newline c = nat_beq (code c) 10

abbrev pub lines_of : String → List String
lines_of = split_by is_newline

-- `json.dump` writes a line of its own that `json.loads` reads.
abbrev pub IsReadable :
    (Message → Result (Unit {0}) × String) → (String → Option Message) → Message → Type 0
IsReadable dump loads m =
    (dump m ≡ (ok tt, (dump m).1)) × IsPart is_newline (dump m).1 × (loads (dump m).1 ≡ some m)

-- What the log is to say of a task or of a play that was stopped.
abbrev told_end : (ℕ → String) → Option ℕ → String
told_end isoformat none = ""
told_end isoformat (some end) = isoformat end

module _ (isoformat : ℕ → String) (playbook : Option String) where
  abbrev pub told : Option String → Timestamp → Message
  told task t = record {
    task = task;
    playbook = playbook;
    started_at = isoformat t.start;
    ended_at = told_end isoformat t.end;
    duration = pos (cost t);
  }

  abbrev told_tasks : Dict String Timestamp → List Message
  told_tasks [] = []
  told_tasks ((name, t) ∷ results) = told (some name) t ∷ told_tasks results

  abbrev pub told_all : Timestamp → Dict String Timestamp → List Message
  told_all timestamp results = told_tasks results ++ told none timestamp ∷ []

module _ (host : Host) (playbook : Option String) where
  message_of-told :
      (task : Option String) (t : Timestamp)
      → IsStopped t
      → message_of host task playbook t ≡ ok (told host.isoformat playbook task t)
  message_of-told task t (e, ended, h) = rw ended (rw (minus-le e t.start h) refl)

  task_messages-told :
      (results : Dict String Timestamp)
      → AllStopped results
      → task_messages host playbook results ≡ ok (told_tasks host.isoformat playbook results)
  task_messages-told [] h = refl
  task_messages-told ((name, t) ∷ results) (h, hs) =
      rw (message_of-told (some name) t h, task_messages-told results hs) refl

  pub messages_of-told :
      (timestamp : Timestamp) (results : Dict String Timestamp)
      → IsStopped timestamp
      → AllStopped results
      → messages_of host playbook timestamp results
        ≡ ok (told_all host.isoformat playbook timestamp results)
  unfolding messages_of
  messages_of-told timestamp results h hs =
      rw (task_messages-told results hs, message_of-told none timestamp h) refl

content-append :
    (path : String) (xs ys : List Call)
    → content path (xs ++ ys) ≡ content path xs <> content path ys
content-append path [] ys = sym (nil-append _)
content-append path (write file text ∷ xs) ys = elim (Bool-cases (file == path)) [
  | inl same ↦ rw (same, content-append path xs ys) (sym (append_assoc _ _ _))
  | inr other ↦ rw (other, content-append path xs ys) refl
]
content-append path (send_tasks ms ∷ xs) ys = content-append path xs ys
content-append path (send_play m ∷ xs) ys = content-append path xs ys
content-append path (info line ∷ xs) ys = content-append path xs ys
content-append path (failed text ∷ xs) ys = content-append path xs ys
content-append path (make_dirs log_dir ∷ xs) ys = content-append path xs ys

module _ (host : Host) (loads : String → Option Message) (path : String) where
  -- The calls that write messages, and their text read back.
  abbrev IsRead : List Message → List Call → Type 0
  IsRead messages calls = map loads (lines_of (content path calls)) ≡ map some messages

  abbrev written : Message → List Call
  written m = write path (host.dump m).1 ∷ write path "\n" ∷ []

  written-IsRead :
      (m : Message) (messages : List Message) (calls : List Call)
      → IsReadable host.dump loads m
      → IsRead messages calls
      → IsRead (m ∷ messages) (written m ++ calls)
  written-IsRead m messages calls (e, part, reads) h =
      rw
        (
          beq_refl path,
          cons-append,
          nil-append,
          split_by-append is_newline (host.dump m).1 (content path calls) "\n" part refl,
          reads,
          h,
        )
        refl

  write_each :
      {S : Type 0} (messages : List Message) (s : S)
      → All (IsReadable host.dump loads) messages
      → (calls : List Call) × (each (write_message host path) messages s ≡ (ok tt, s, calls))
        × IsRead messages calls
  write_each [] s h = ([], refl, refl)
  write_each (m ∷ messages) s ((e, part, reads), hs) =
      let (calls, rest, r) = write_each messages s hs in
      (written m ++ calls, rw (e, rest) refl, written-IsRead m messages calls (e, part, reads) r)

  abbrev IsLogged : {S : Type 0} → List Message → Run S Call (Unit {0}) → Type 0
  IsLogged messages (result, s, calls) = (result ≡ ok tt) × IsRead messages calls

  write_log-IsLogged :
      {S : Type 0} (messages : List Message) (s : S)
      → ((p : String) → host.make_dirs p ≡ ok tt)
      → ((p : String) → host.open_log p ≡ ok tt)
      → All (IsReadable host.dump loads) messages
      → IsLogged messages (write_log host path messages s)
  write_log-IsLogged messages s made opened h =
      let (calls, e, r) = write_each messages s h in
      elim (Bool-cases (not (is_empty (dirname path)) && not (host.exists (dirname path)))) [
        | inl missing ↦ rw (missing, made (dirname path), opened path, e) (refl, r)
        | inr there ↦ rw (there, opened path, e) (refl, r)
      ]

-- If the path of the log can be formed, the file can be written and each message is readable, the call of the JSON logger returns, and
-- the lines of what it has written read back as one message for each task and one for the play,
-- with their names, starts, ends and durations.
pub json_log_play-IsLogged :
    (host : Host) (loads : String → Option Message) (pattern path : String)
    (playbook : Option String) (timestamp : Timestamp) (results : Dict String Timestamp)
    → host.timer_log ≡ some pattern
    → host.strftime timestamp.start pattern ≡ ok path
    → ((p : String) → host.make_dirs p ≡ ok tt)
    → ((p : String) → host.open_log p ≡ ok tt)
    → IsStopped timestamp
    → AllStopped results
    → All (IsReadable host.dump loads) (told_all host.isoformat playbook timestamp results)
    → let (result, s, calls) = json_log_play host playbook timestamp results (tt {0}) in
      (result ≡ ok tt)
      × (map loads (lines_of (content path calls))
          ≡ map some (told_all host.isoformat playbook timestamp results))
unfolding json_log_play
json_log_play-IsLogged host loads pattern path playbook timestamp results set named made opened h hs
      readable =
    let messages = told_all host.isoformat playbook timestamp results in
    let logged : IsLogged host loads path messages
        (json_log_to host (some pattern) playbook timestamp results (tt {0})) =
      rw (messages_of-told host playbook timestamp results h hs, named)
        (write_log-IsLogged host loads path messages (tt {0}) made opened readable) in
    subst
      (λ log.
        IsLogged host loads path messages (json_log_to host log playbook timestamp results tt))
      (sym set) logged
