-- ===== src/Volumes/Ending.antt =====
-- When the loop of tag-old-ebs.py that releases a volume ends.
use mathlib.Core.Path.{subst}
use configuration.Base.{
  ℕ, zero, suc, ◌+◌, ◌≤◌, ◌<◌, Bool, true, false, ◌≡◌, refl, List, [], ◌∷◌, String, ok, raised,
  ec2_response_error, leb, leb→le, Bool-cases, inl, inr, ◌⊎◌, arith,
}
use configuration.Base.Script.{Run, Script, when, continue, ◌>>◌}
use configuration.Volumes.Run.{
  Volume, Call, detach, Args, Host, turn, pause, detach_if, release, turns,
}
use configuration.Volumes.Released.{EndsIn, IsReleased, release-EndsIn}

module _ (args : Args) (host : Host) (vol : Volume) where
  -- Calls to detach the volume are accepted, or refused by EC2, and its status can be asked for.
  pub record Answers : Type 0 where
    pub attached : (n : ℕ) → (b : Bool) × (host.is_attached n vol.id ≡ ok b)
    pub detached :
        (n : ℕ)
        → (host.detach n vol.id ≡ ok tt)
          ⊎ ((code : String) × (host.detach n vol.id ≡ raised (ec2_response_error code)))

  -- From a question on, the device is gone and the volume is not attached.
  pub record IsFreeFrom (free : ℕ) : Type 0 where
    pub gone : (n : ℕ) → free ≤ n → host.exists n args.device ≡ false
    pub available : (n : ℕ) → free ≤ n → host.is_attached n vol.id ≡ ok false

  -- A run that returns after at least one question.
  abbrev Goes : ℕ → Run ℕ Call (Unit {0}) → Type 0
  Goes n r = (end : ℕ) × (calls : List Call) × (r ≡ (ok tt, end, calls)) × (n < end)

  module _ (h : Answers) where
    detach_if-ok :
        (b : Bool) (n : ℕ)
        → (end : ℕ) × (calls : List Call) × (detach_if args host vol b n ≡ (ok tt, end, calls))
          × (n ≤ end)
    detach_if-ok false n = (n, [], refl, omega arith)
    detach_if-ok true n = elim (h.detached n) [
      | inl e ↦ (suc n, detach vol.id ∷ [], rw e refl, omega arith)
      | inr (code, e) ↦ (suc n, detach vol.id ∷ [], rw e refl, omega arith)
    ]

    turn-Goes : (n : ℕ) → Goes n (turn args host vol n)
    turn-Goes n =
        let (b, e) = h.attached n in
        let (end, calls, d, le) = detach_if-ok b (suc n) in
        (end, calls, rw (e, d) refl, omega (arith, le))

    body-Goes :
        (rest : Script ℕ Call (Unit {0})) (n m : ℕ)
        → n ≤ m
        → ((k : ℕ) → n < k → Goes k (rest k))
        → Goes n ((turn args host vol >> pause args host >> rest) m)
    body-Goes rest n m le g =
        let (k, calls, e, later) = turn-Goes m in
        let (end, more, r, lt) = g k (omega (arith, le, later)) in
        rw (e, r) (end, _, refl, omega (arith, le, later, lt))

    -- The device is gone, and the status is asked for.
    status-Goes :
        (rest : Script ℕ Call (Unit {0})) (n : ℕ)
        → (b : Bool) × (host.is_attached (suc n) vol.id ≡ ok b)
        → ((k : ℕ) → n < k → Goes k (rest k))
        → Goes n (
            continue
              (λ busy. when busy (turn args host vol >> pause args host >> rest))
              (host.is_attached (suc n) vol.id, suc (suc n), []))
    status-Goes rest n (true, e) g = rw e (body-Goes rest n (suc (suc n)) (omega arith) g)
    status-Goes rest n (false, e) g = rw e (suc (suc n), [], refl, omega arith)

    release-Goes :
        (free left n : ℕ)
        → IsFreeFrom free
        → 1 ≤ left
        → free < n + left
        → Goes n (release args host vol left n)
    unfolding release
    release-Goes free zero n f some_left lt = absurd (omega (arith, some_left))
    release-Goes free (suc left) n f some_left lt = elim (Bool-cases (leb free n)) [
      | inl now ↦
          let there = leb→le free n now in
          rw (f.gone n there, f.available (suc n) (omega (arith, there)))
            (suc (suc n), [], refl, omega arith)
      | inr not_yet ↦
          let early : n < free = ground arith in
          let again : (k : ℕ) → n < k → Goes k (release args host vol left k) = λ k later.
            release-Goes free left k f (omega (arith, early, lt)) (omega (arith, later, lt)) in
          let rest = release args host vol left in
          elim (Bool-cases (host.exists n args.device)) [
            | inl there ↦ rw there (body-Goes rest n (suc n) (omega arith) again)
            | inr gone ↦ rw gone (status-Goes rest n (h.attached (suc n)) again)
          ]
    ]

-- If the volume's status can be asked for, calls to detach it are accepted or refused by EC2, and
-- from some question on the device is gone and the volume is not attached, before the turns are used
-- up: then the loop that releases the volume returns, in place of an exit, and its last answers were
-- these two.
pub release-returns :
    (args : Args) (host : Host) (vol : Volume) (free n : ℕ)
    → Answers args host vol
    → IsFreeFrom args host vol free
    → free < n + turns
    → (end : ℕ) × (calls : List Call) × (release args host vol turns n ≡ (ok tt, end, calls))
      × IsReleased args host vol end
release-returns args host vol free n h f lt =
    let (end, calls, r, later) = release-Goes args host vol h free turns n f (omega arith) lt in
    (
      end,
      calls,
      r,
      subst (EndsIn (IsReleased args host vol)) r (release-EndsIn args host vol turns n),
    )
