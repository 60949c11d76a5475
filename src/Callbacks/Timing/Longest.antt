-- ===== src/Callbacks/Timing/Longest.antt =====
-- The tasks that are named on the standard output.
use mathlib.Core.Path.{subst}
use mathlib.Core.List.{Perm}
use mathlib.Core.List.Perm
use configuration.Base.{
  ℕ, zero, suc, ◌<◌, true, false, Option, ◌≡◌, refl, ap, ◌⊎◌, List, [], ◌∷◌, ◌++◌, map, String,
  length, ok, Dict, All, All-imp, >>=-eq-ok, arith, Bool-cases, inl, inr,
}
use configuration.Base.Script.{each}
use configuration.Callbacks.Timing.Stamp.{
  ℤ, pos, negsuc, le, Timestamp, duration, durations, insert_task, sort_tasks,
}
use configuration.Callbacks.Timing.Loggers.{
  Host, Call, task_line, finished_line, info, take, info_task, logging_log_play,
}
use configuration.Callbacks.Timing.Stopped.{
  IsStopped, AllStopped, cost, duration-IsStopped, durations-AllStopped,
}

-- `rest_after n xs` is what `take n xs` leaves.
abbrev rest_after {ℓ} : {A : Type ℓ} → ℕ → List A → List A
rest_after zero xs = xs
rest_after (suc n) [] = []
rest_after (suc n) (x ∷ xs) = rest_after n xs

-- No item of the list takes longer.
abbrev pub IsLongest : String × ℤ → List (String × ℤ) → Type 0
IsLongest x = All (λ (y : String × ℤ). le y.1 x.1 ≡ true)

abbrev pub Descending : List (String × ℤ) → Type 0
Descending [] = Unit
Descending (x ∷ xs) = IsLongest x xs × Descending xs

le_total : (a b : ℤ) → le a b ≡ false → le b a ≡ true
le_total (pos a) (pos b) h = ground arith
le_total (pos a) (negsuc b) h = refl
le_total (negsuc a) (pos b) h = absurd (cc h)
le_total (negsuc a) (negsuc b) h = ground arith

le_trans : (a b c : ℤ) → le a b ≡ true → le b c ≡ true → le a c ≡ true
le_trans (pos a) (pos b) (pos c) h k = ground arith
le_trans (pos a) (pos b) (negsuc c) h k = absurd (cc k)
le_trans (pos a) (negsuc b) c h k = absurd (cc h)
le_trans (negsuc a) b (pos c) h k = refl
le_trans (negsuc a) (pos b) (negsuc c) h k = absurd (cc k)
le_trans (negsuc a) (negsuc b) (negsuc c) h k = ground arith

insert_task-perm : (x : String × ℤ) (ys : List (String × ℤ)) → Perm (insert_task x ys) (x ∷ ys)
insert_task-perm x [] = Perm.rfl
insert_task-perm x (y ∷ ys) = elim (Bool-cases (le y.1 x.1)) [
  | inl front ↦ rw front Perm.rfl
  | inr behind ↦ rw behind (Perm.trans (Perm.cons y (insert_task-perm x ys)) (Perm.swap x y ys))
]

sort_tasks-perm : (xs : List (String × ℤ)) → Perm (sort_tasks xs) xs
unfolding sort_tasks
sort_tasks-perm [] = Perm.rfl
sort_tasks-perm (x ∷ xs) =
    Perm.trans (insert_task-perm x (sort_tasks xs)) (Perm.cons x (sort_tasks-perm xs))

insert_task-IsLongest :
    (z x : String × ℤ) (ys : List (String × ℤ))
    → le x.1 z.1 ≡ true
    → IsLongest z ys
    → IsLongest z (insert_task x ys)
insert_task-IsLongest z x [] h hs = (h, tt)
insert_task-IsLongest z x (y ∷ ys) h (k, hs) = elim (Bool-cases (le y.1 x.1)) [
  | inl front ↦ rw front (h, (k, hs))
  | inr behind ↦ rw behind (k, insert_task-IsLongest z x ys h hs)
]

IsLongest-le :
    (z x : String × ℤ) (ys : List (String × ℤ))
    → le x.1 z.1 ≡ true
    → IsLongest x ys
    → IsLongest z ys
IsLongest-le z x ys h =
    All-imp (λ y. le y.1 x.1 ≡ true) (λ y. le y.1 z.1 ≡ true) ys (λ y k. le_trans y.1 x.1 z.1 k h)

insert_task-Descending :
    (x : String × ℤ) (ys : List (String × ℤ)) → Descending ys → Descending (insert_task x ys)
insert_task-Descending x [] h = (tt, tt)
insert_task-Descending x (y ∷ ys) (h, hs) = elim (Bool-cases (le y.1 x.1)) [
  | inl front ↦ rw front ((front, IsLongest-le x y ys front h), (h, hs))
  | inr behind ↦
      let longer = le_total y.1 x.1 behind in
      rw behind (insert_task-IsLongest y x ys longer h, insert_task-Descending x ys hs)
]

sort_tasks-Descending : (xs : List (String × ℤ)) → Descending (sort_tasks xs)
unfolding sort_tasks
sort_tasks-Descending [] = tt
sort_tasks-Descending (x ∷ xs) = insert_task-Descending x (sort_tasks xs) (sort_tasks-Descending xs)

take-append : {A : Type 0} (n : ℕ) (xs : List A) → take n xs ++ rest_after n xs ≡ xs
take-append zero xs = refl
take-append (suc n) [] = refl
take-append (suc n) (x ∷ xs) = ap (λ rest. x ∷ rest) (take-append n xs)

take_all_or_n :
    {A : Type 0} (n : ℕ) (xs : List A)
    → (length (take n xs) ≡ n) ⊎ ((length (take n xs) < n) × (rest_after n xs ≡ []))
take_all_or_n zero xs = inl refl
take_all_or_n (suc n) [] = inr (omega arith, refl)
take_all_or_n (suc n) (x ∷ xs) = elim (take_all_or_n n xs) [
  | inl e ↦ inl (ap suc e)
  | inr (short, e) ↦ inr (omega (arith, short), e)
]

module _ (host : Host) where
  abbrev pub line_call : String × ℤ → Call
  line_call (name, d) = info (task_line name d)

  -- Its name can be formatted.
  abbrev pub IsFormatted {ℓ} : {A : Type ℓ} → String × A → Type 0
  IsFormatted (name, a) = host.formats name ≡ ok tt

  durations-IsFormatted :
      (results : Dict String Timestamp) (timed : List (String × ℤ))
      → durations results ≡ ok timed
      → All IsFormatted results
      → All IsFormatted timed
  unfolding durations
  durations-IsFormatted [] timed e h = let same : [] ≡ timed = cc in subst (All IsFormatted) same tt
  durations-IsFormatted ((name, t) ∷ results) timed e (h, hs) =
      let (d, _, rest) = >>=-eq-ok (duration t) _ e in
      let (more, e', last) = >>=-eq-ok (durations results) _ rest in
      let same : (name, d) ∷ more ≡ timed = cc in
      subst (All IsFormatted) same (h, durations-IsFormatted results more e' hs)

  insert_task-IsFormatted :
      (x : String × ℤ) (ys : List (String × ℤ))
      → IsFormatted x
      → All IsFormatted ys
      → All IsFormatted (insert_task x ys)
  insert_task-IsFormatted x [] h hs = (h, tt)
  insert_task-IsFormatted x (y ∷ ys) h (k, hs) = elim (Bool-cases (le y.1 x.1)) [
    | inl front ↦ rw front (h, (k, hs))
    | inr behind ↦ rw behind (k, insert_task-IsFormatted x ys h hs)
  ]

  sort_tasks-IsFormatted :
      (xs : List (String × ℤ)) → All IsFormatted xs → All IsFormatted (sort_tasks xs)
  unfolding sort_tasks
  sort_tasks-IsFormatted [] h = tt
  sort_tasks-IsFormatted (x ∷ xs) (h, hs) =
      insert_task-IsFormatted x (sort_tasks xs) h (sort_tasks-IsFormatted xs hs)

  take-IsFormatted :
      (n : ℕ) (xs : List (String × ℤ)) → All IsFormatted xs → All IsFormatted (take n xs)
  take-IsFormatted zero xs h = tt
  take-IsFormatted (suc n) [] h = tt
  take-IsFormatted (suc n) (x ∷ xs) (h, hs) = (h, take-IsFormatted n xs hs)

  info_each :
      {S : Type 0} (xs : List (String × ℤ)) (s : S)
      → All IsFormatted xs
      → each (info_task host) xs s ≡ (ok tt, s, map line_call xs)
  info_each [] s h = refl
  info_each (x ∷ xs) s (h, hs) = rw (h, info_each xs s hs) refl

-- If every task and the play was stopped and the tasks' names can be formatted, the logger of the standard output prints ten of the tasks,
-- or all if they are fewer, the longest first, and none that it leaves out took longer than one of
-- them; then it prints the play with the number of all tasks.
pub logging_log_play-Descending :
    (host : Host) (playbook : Option String) (timestamp : Timestamp)
    (results : Dict String Timestamp)
    → IsStopped timestamp
    → AllStopped results
    → All (IsFormatted host) results
    → (timed : List (String × ℤ)) × (durations results ≡ ok timed)
      × (shown : List (String × ℤ)) × (hidden : List (String × ℤ)) × (logging_log_play host playbook
            timestamp results
            (tt {0})
          ≡ (
            ok tt,
            tt,
            map (line_call host) shown
                ++ info
                    (finished_line playbook timestamp.end (length results) (pos (cost timestamp)))
                  ∷ [],
          ))
      × Perm (shown ++ hidden) timed
      × Descending (shown ++ hidden)
      × ((length shown ≡ 10) ⊎ ((length shown < 10) × (hidden ≡ [])))
unfolding logging_log_play
logging_log_play-Descending host playbook timestamp results h hs formatted =
    let (timed, e, adds) = durations-AllStopped results hs in
    let sorted = sort_tasks timed in
    let shown = info_each host (take 10 sorted) tt (
      take-IsFormatted host 10 sorted (
        sort_tasks-IsFormatted host timed
          (durations-IsFormatted host results timed e formatted))) in
    let whole = take-append 10 sorted in
    (
      timed,
      e,
      take 10 sorted,
      rest_after 10 sorted,
      rw (e, shown, duration-IsStopped timestamp h) refl,
      rw whole (sort_tasks-perm timed),
      rw whole (sort_tasks-Descending timed),
      take_all_or_n 10 sorted,
    )
