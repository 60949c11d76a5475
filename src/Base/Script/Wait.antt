-- ===== src/Base/Script/Wait.antt =====
-- Waiting in a loop with a bound.
use configuration.Base.{
  ℕ, zero, suc, ◌+◌, ◌≤◌, ◌<◌, Bool, true, false, ◌≡◌, refl, List, [], ◌++◌, Exception, ok, raised,
  arith, nat_eq, ◌==◌, Bool-cases, inl, inr,
}
use configuration.Base.Script.{Script, wait_until}

module _ {ℓ κ} {S : Type ℓ} {C : Type κ} (attempt : ℕ → Script S C Bool) (timeout : Exception)
    (s : S) where
  -- The loop ends with the first attempt that does not ask for another one.
  pub wait_until-done :
      (fuel n k : ℕ) (t : S) (calls : List C)
      → ((i : ℕ) → n ≤ i → i < k → attempt i s ≡ (ok false, s, []))
      → n ≤ k
      → k < n + fuel
      → attempt k s ≡ (ok true, t, calls)
      → wait_until attempt timeout fuel n s ≡ (ok tt, t, calls ++ [])
  unfolding wait_until
  wait_until-done zero n k t calls h le lt e = absurd (omega (arith, le, lt))
  wait_until-done (suc fuel) n k t calls h le lt e = elim (Bool-cases (n == k)) [
    | inl here ↦ let same : n ≡ k = ground arith in rw (same, e) refl
    | inr on ↦ rw (h n (omega arith) (ground arith)) (
        wait_until-done fuel (suc n) k t calls (λ i m. h i (omega (arith, m))) (ground arith)
          (omega (arith, lt)) e)
  ]

  pub wait_until-timeout :
      (fuel n : ℕ)
      → ((i : ℕ) → i < n + fuel → attempt i s ≡ (ok false, s, []))
      → wait_until attempt timeout fuel n s ≡ (raised timeout, s, [])
  unfolding wait_until
  wait_until-timeout zero n h = refl
  wait_until-timeout (suc fuel) n h =
      rw (h n (omega arith)) (wait_until-timeout fuel (suc n) (λ i lt. h i (omega (arith, lt))))
