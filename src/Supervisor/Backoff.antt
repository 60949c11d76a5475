-- ===== src/Supervisor/Backoff.antt =====
-- The back-off of pre_supervisor_checks.py.
use configuration.Base.{
  ℕ, suc, ◌+◌, ◌-◌, ◌*◌, ◌<◌, ◌≡◌, refl, none, some, List, [], ◌∷◌, Result, ok, raised, true, ltb,
  arith, if◌then◌else◌, Bool-cases, inl, inr,
}
use configuration.Base.Script.{is_exception}
use configuration.Supervisor.Instance.{
  Edp, Waiting, tried, wait_for_edp, max_backoff, initial_backoff,
}

abbrev pub attempt : Result Edp → ℕ → Waiting → Waiting
attempt (ok edp) sleep rest = (ok (some edp), [])
attempt (raised e) sleep (found, sleeps) =
    if is_exception e then (found, sleep ∷ sleeps) else (raised e, [])

-- So many attempts, each but a last one that succeeds, exits or is interrupted followed by a sleep.
abbrev pub attempts : (ℕ → Result Edp) → List ℕ → ℕ → Waiting
attempts answers [] n = (ok none, [])
attempts answers (sleep ∷ sleeps) n = attempt (answers n) sleep (attempts answers sleeps (suc n))

tried-attempt :
    (answer : Result Edp) (sleep : ℕ) (rest : Waiting)
    → tried answer sleep (some rest) ≡ some (attempt answer sleep rest)
tried-attempt (ok edp) sleep rest = refl
tried-attempt (raised e) sleep rest = elim (Bool-cases (is_exception e)) [
  | inl caught ↦ rw caught refl
  | inr passed_on ↦ rw passed_on refl
]

wait_step :
    (answers : ℕ → Result Edp) (fuel time_left backoff n : ℕ) (rest : Waiting)
    → 0 < time_left
    → wait_for_edp answers fuel (time_left - backoff) (backoff * 2) (suc n) ≡ some rest
    → wait_for_edp answers (suc fuel) time_left backoff n ≡ some (attempt (answers n) backoff rest)
unfolding wait_for_edp
wait_step answers fuel time_left backoff n rest more e =
    let open_ : ltb 0 time_left ≡ true = ground arith in
    rw (open_, e) (tried-attempt (answers n) backoff rest)

-- The loop makes seven attempts at most, and sleeps 1, 2, 4, 8, 16, 32 and 64 seconds after those
-- that fail, whatever fuel above seven it has; an attempt that exits or is interrupted ends it with
-- what was raised.
pub wait_for_edp-attempts :
    (answers : ℕ → Result Edp) (fuel : ℕ)
    → wait_for_edp answers (8 + fuel) max_backoff initial_backoff 0
      ≡ some (attempts answers (1 ∷ 2 ∷ 4 ∷ 8 ∷ 16 ∷ 32 ∷ 64 ∷ []) 0)
unfolding wait_for_edp
wait_for_edp-attempts answers fuel =
    let eight : 8 + fuel ≡ suc (suc (suc (suc (suc (suc (suc (suc fuel))))))) = omega arith in
    rw eight (
      wait_step answers (suc (suc (suc (suc (suc (suc (suc fuel))))))) 120 1 0 _ (omega arith) (
        wait_step answers (suc (suc (suc (suc (suc (suc fuel)))))) 119 2 1 _ (omega arith) (
          wait_step answers (suc (suc (suc (suc (suc fuel))))) 117 4 2 _ (omega arith) (
            wait_step answers (suc (suc (suc (suc fuel)))) 113 8 3 _ (omega arith) (
              wait_step answers (suc (suc (suc fuel))) 105 16 4 _ (omega arith) (
                wait_step answers (suc (suc fuel)) 89 32 5 _ (omega arith)
                  (wait_step answers (suc fuel) 57 64 6 _ (omega arith) refl)))))))
