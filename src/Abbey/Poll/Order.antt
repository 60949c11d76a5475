-- ===== src/Abbey/Poll/Order.antt =====
-- The buffer of `poll_sqs_ansible`: what it takes in and in which order messages leave it.
use mathlib.Core.List.{Perm, append_assoc, append-nil}
use mathlib.Core.List.Perm
use configuration.Base.{
  ℕ, ◌≡◌, refl, sym, inl, inr, Bool, true, false, ◌&&◌, Option, none, some, List, [], ◌∷◌, ◌++◌,
  arith, ltb, ◌||◌, ◌==◌, nat_eq, if◌then◌else◌, ok, Bool-cases, All, All-imp,
}
use configuration.Abbey.Poll.Shown.{show-IsStep, stays_popped}
use configuration.Abbey.Poll.{
  Event, MsgInfo, SqsMessage, State, polling, receive, keep, ts_of, goes_first, insert_info,
  sort_infos, has_value, all_stamped, show, popped, show_first, display,
}

-- The entries for those of the messages whose bodies are JSON.
abbrev pub parsed : List SqsMessage → List MsgInfo
parsed [] = []
parsed (m ∷ messages) = keep m m.body [] ++ parsed messages

keep_append :
    (m : SqsMessage) (body : Option Event) (buf : List MsgInfo)
    → keep m body buf ≡ buf ++ keep m body []
keep_append m none buf = sym (append-nil _)
keep_append m (some msg) buf = refl

-- Every message that the queue handed out is deleted, and those that can be read are appended to
-- the buffer in their order, behind what was there.
pub receive_lem :
    (messages : List SqsMessage) (s : State)
    → ((receive messages s).buf ≡ s.buf ++ parsed messages)
      × ((receive messages s).deleted ≡ s.deleted ++ messages)
      × ((receive messages s).completed ≡ s.completed)
      × ((receive messages s).task_report ≡ s.task_report)
unfolding receive
receive_lem [] s = (sym (append-nil _), sym (append-nil _), refl, refl)
receive_lem (m ∷ messages) s =
    let next = record s {
      buf = keep m m.body s.buf;
      oldest_msg_ts =
          if s.oldest_msg_ts == 0 || ltb m.received s.oldest_msg_ts
          then m.received
          else s.oldest_msg_ts;
      deleted = s.deleted ++ m ∷ [];
    } in
    let (bufs, deletions, counts, reports) = receive_lem messages next in
    (
      rw (bufs, keep_append m m.body s.buf, append_assoc) refl,
      rw (deletions, append_assoc) refl,
      counts,
      reports,
    )

-- One message may be shown before the other.
abbrev pub IsBefore : MsgInfo → MsgInfo → Type 0
IsBefore x y = goes_first (ts_of x) (ts_of y) ≡ true

abbrev IsOrdered : List MsgInfo → Type 0
IsOrdered [] = Unit
IsOrdered (x ∷ xs) = All (IsBefore x) xs × IsOrdered xs

before_trans :
    (a b c : Option ℕ)
    → has_value b ≡ true
    → goes_first a b ≡ true
    → goes_first b c ≡ true
    → goes_first a c ≡ true
before_trans none b c v h k = refl
before_trans (some a) none c v h k = absurd (cc v)
before_trans (some a) (some b) none v h k = refl
before_trans (some a) (some b) (some c) v h k = ground arith

before_total : (a b : Option ℕ) → goes_first a b ≡ false → goes_first b a ≡ true
before_total none b h = absurd (cc h)
before_total (some a) none h = refl
before_total (some a) (some b) h = ground arith

pub insert_info-All {ℓ} :
    (P : MsgInfo → Type ℓ) (x : MsgInfo) (ys : List MsgInfo)
    → P x
    → All P ys
    → All P (insert_info x ys)
insert_info-All P x [] h hs = (h, tt)
insert_info-All P x (y ∷ ys) h hs = elim (Bool-cases (goes_first (ts_of x) (ts_of y))) [
  | inl front ↦ rw front (h, hs)
  | inr later ↦ rw later (hs.0, insert_info-All P x ys h hs.1)
]

insert_info-IsOrdered :
    (x : MsgInfo) (ys : List MsgInfo)
    → all_stamped ys ≡ true
    → IsOrdered ys
    → IsOrdered (insert_info x ys)
insert_info-IsOrdered x [] v h = (tt, tt)
insert_info-IsOrdered x (y ∷ ys) v h = elim (Bool-cases (goes_first (ts_of x) (ts_of y))) [
  | inl front ↦ rw front (
    (
      front,
      All-imp (IsBefore y) (IsBefore x) ys
          (λ z k. before_trans (ts_of x) (ts_of y) (ts_of z) (ground arith) front k) h.0,
    ),
    h,
  )
  | inr later ↦ rw later (
    insert_info-All (IsBefore y) x ys (before_total (ts_of x) (ts_of y) later) h.0,
    insert_info-IsOrdered x ys (ground arith) h.1,
  )
]

all_stamped-insert_info :
    (x : MsgInfo) (ys : List MsgInfo)
    → all_stamped (insert_info x ys) ≡ (has_value (ts_of x) && all_stamped ys)
all_stamped-insert_info x [] = refl
all_stamped-insert_info x (y ∷ ys) = ground (arith, all_stamped-insert_info x ys)

all_stamped-sort_infos : (xs : List MsgInfo) → all_stamped (sort_infos xs) ≡ all_stamped xs
unfolding sort_infos
all_stamped-sort_infos [] = refl
all_stamped-sort_infos (x ∷ xs) =
    ground (arith, all_stamped-insert_info x (sort_infos xs), all_stamped-sort_infos xs)

sort_infos-IsOrdered : (xs : List MsgInfo) → all_stamped xs ≡ true → IsOrdered (sort_infos xs)
unfolding sort_infos
sort_infos-IsOrdered [] v = tt
sort_infos-IsOrdered (x ∷ xs) v =
    insert_info-IsOrdered x (sort_infos xs) (ground (arith, all_stamped-sort_infos xs))
      (sort_infos-IsOrdered xs (ground arith))

insert_info-perm : (x : MsgInfo) (ys : List MsgInfo) → Perm (insert_info x ys) (x ∷ ys)
insert_info-perm x [] = Perm.rfl
insert_info-perm x (y ∷ ys) = elim (Bool-cases (goes_first (ts_of x) (ts_of y))) [
  | inl front ↦ rw front Perm.rfl
  | inr later ↦ rw later (Perm.trans (Perm.cons y (insert_info-perm x ys)) (Perm.swap x y ys))
]

pub sort_infos-perm : (xs : List MsgInfo) → Perm (sort_infos xs) xs
unfolding sort_infos
sort_infos-perm [] = Perm.rfl
sort_infos-perm (x ∷ xs) =
    Perm.trans (insert_info-perm x (sort_infos xs)) (Perm.cons x (sort_infos-perm xs))

-- What a turn that goes on has taken off the buffer, and what it has left.
pub record Takes (s s' : State) : Type 0 where
  pub taken : MsgInfo
  pub is_shown : s'.to_disp ≡ some taken
  pub conserves : Perm (taken ∷ s'.buf) s.buf
  pub is_least : All (IsBefore taken) s'.buf

first_taken :
    (verbose : Bool) (sorted : List MsgInfo) (s s' : State)
    → IsOrdered sorted
    → Perm sorted s.buf
    → show_first verbose sorted s ≡ ok (polling s')
    → Takes s s'
first_taken verbose [] s s' order perm h = absurd (cc h)
first_taken verbose (x ∷ rest) s s' order perm h =
    let (same, shown) =
      stays_popped x rest s s' (show verbose x.msg (popped x rest s))
        (show-IsStep verbose x.msg (popped x rest s)) h in
    record { taken = x; is_shown = shown; conserves = rw same perm; is_least = rw same order.0 }

-- A turn that displays a message and goes on takes one off the buffer whose "TS" is the least, and
-- keeps all others.
pub display-Takes :
    (verbose : Bool) (s s' : State)
    → all_stamped s.buf ≡ true
    → display verbose s ≡ ok (polling s')
    → Takes s s'
unfolding display
display-Takes verbose s s' v h =
    first_taken verbose (sort_infos s.buf) s s' (sort_infos-IsOrdered s.buf v)
      (sort_infos-perm s.buf) (rw v at h)
