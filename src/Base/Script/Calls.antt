-- ===== src/Base/Script/Calls.antt =====
-- The calls that a script has made by its end.
use configuration.Base.{
  ◌≡◌, refl, Bool, true, false, List, [], ◌++◌, Result, ok, raised, IsIn, IsIn-append_left,
  IsIn-append_right,
}
use configuration.Base.Script.{Run, Script, after, continue, when, close, outcome_of}

module _ {ℓ κ μ} {S : Type ℓ} {C : Type κ} {A : Type μ} where
  outcome_of-calls : (result : Result A) (r : Run S C (Unit {0})) → (outcome_of result r).2 ≡ r.2
  outcome_of-calls result (ok u, s, calls) i = calls
  outcome_of-calls result (raised e, s, calls) i = calls

  pub close-calls :
      (cleanup : Script S C (Unit {0})) (result : Result A) (s : S) (calls : List C)
      → (close cleanup (result, s, calls)).2 ≡ calls ++ (cleanup s).2
  close-calls cleanup result s calls = outcome_of-calls result (after calls (cleanup s))

module _ {ℓ κ μ ν} {S : Type ℓ} {C : Type κ} {A : Type μ} {B : Type ν} where
  pub IsIn-continue :
      (next : A → Script S C B) (r : Run S C A) (c : C) → IsIn c r.2 → IsIn c (continue next r).2
  IsIn-continue next (ok a, s, calls) c m = IsIn-append_left (next a s).2 m
  IsIn-continue next (raised e, s, calls) c m = m

  pub IsIn-continue_later :
      (next : A → Script S C B) (r : Run S C A) (c : C) (a : A)
      → r.0 ≡ ok a
      → ((s : S) → IsIn c (next a s).2)
      → IsIn c (continue next r).2
  IsIn-continue_later next (ok b, s, calls) c a e m =
      let same : b ≡ a = cc in rw same (IsIn-append_right calls (m s))
  IsIn-continue_later next (raised x, s, calls) c a e m = absurd (cc e)

module _ {ℓ κ} {S : Type ℓ} {C : Type κ} (m : Script S C (Unit {0})) (s : S) where
  pub when-true : (b : Bool) → b ≡ true → when b m s ≡ m s
  when-true true h = refl
  when-true false h = absurd (cc h)

  pub when-false : (b : Bool) → b ≡ false → when b m s ≡ (ok tt, s, [])
  when-false true h = absurd (cc h)
  when-false false h = refl
