-- ===== src/Volumes/Released.antt =====
-- When tag-old-ebs.py goes on to the next volume.
use mathlib.Core.Path.{subst}
use configuration.Base.{
  ℕ, zero, suc, Bool, true, false, ◌≡◌, refl, List, [], Result, ok, raised, has_key, string_eq,
  Bool-cases, inl, inr,
}
use configuration.Base.Script.{Run, Script, when, finally, outcome_of, after, continue, ◌>>=◌, ◌>>◌}
use configuration.Volumes.Run.{
  Volume, Call, Args, Host, turns, is_busy, turn, pause, release, attach_and_tag, tag_volume,
}

-- Where it returns, a predicate holds of the number of the next question.
module _ {A : Type 0} (P : ℕ → Type 0) where
  abbrev pub EndsIn : Run ℕ Call A → Type 0
  EndsIn (ok a, n, calls) = P n
  EndsIn (raised e, n, calls) = Unit

module _ {A : Type 0} (P : ℕ → Type 0) where
  EndsIn-after : (calls : List Call) (r : Run ℕ Call A) → EndsIn P r → EndsIn P (after calls r)
  EndsIn-after calls (ok b, n, more) h = h
  EndsIn-after calls (raised e, n, more) h = tt

module _ {A B : Type 0} (P : ℕ → Type 0) where
  EndsIn-continue :
      (next : A → Script ℕ Call B) (r : Run ℕ Call A)
      → ((a : A) (n : ℕ) → EndsIn P (next a n))
      → EndsIn P (continue next r)
  EndsIn-continue next (ok a, n, calls) h = EndsIn-after P calls (next a n) (h a n)
  EndsIn-continue next (raised e, n, calls) h = tt

EndsIn-outcome_of :
    (P : ℕ → Type 0) (result : Result (Unit {0})) (r : Run ℕ Call (Unit {0}))
    → EndsIn P r
    → EndsIn P (outcome_of result r)
EndsIn-outcome_of P (ok u) (ok v, n, calls) h = h
EndsIn-outcome_of P (raised e) (ok v, n, calls) h = tt
EndsIn-outcome_of P result (raised e, n, calls) h = tt

EndsIn-finally :
    (P : ℕ → Type 0) (body cleanup : Script ℕ Call (Unit {0}))
    → ((n : ℕ) → EndsIn P (cleanup n))
    → (n : ℕ) → EndsIn P (finally body cleanup n)
EndsIn-finally P body cleanup h n =
    let (result, s, calls) = body n in
    EndsIn-outcome_of P result (after calls (cleanup s)) (EndsIn-after P calls (cleanup s) (h s))

module _ (args : Args) (host : Host) (vol : Volume) where
  -- The last two answers were that the device is gone and that the volume is not attached.
  pub record IsReleased (n : ℕ) : Type 0 where
    pub asked : ℕ
    pub gone : host.exists asked args.device ≡ false
    pub available : host.is_attached (suc asked) vol.id ≡ ok false
    pub last_two : n ≡ suc (suc asked)

  module _ (rest : Script ℕ Call (Unit {0})) (h : (n : ℕ) → EndsIn IsReleased (rest n)) where
    abbrev body : Script ℕ Call (Unit {0})
    body = turn args host vol >> pause args host >> rest

    body-EndsIn : (n : ℕ) → EndsIn IsReleased (body n)
    body-EndsIn n =
        EndsIn-continue IsReleased (λ _. rest) ((turn args host vol >> pause args host) n)
          (λ u i. h i)

    release-answered :
        (n : ℕ) (answer : Result Bool)
        → host.exists n args.device ≡ false
        → host.is_attached (suc n) vol.id ≡ answer
        → EndsIn IsReleased (continue (λ busy. when busy body) (answer, suc (suc n), []))
    release-answered n (ok true) gone e =
        EndsIn-after IsReleased [] (body (suc (suc n))) (body-EndsIn (suc (suc n)))
    release-answered n (ok false) gone e = record {
      asked = n;
      gone = gone;
      available = e;
      last_two = refl;
    }
    release-answered n (raised x) gone e = tt

    release-next :
        (n : ℕ) → EndsIn IsReleased ((is_busy args host vol >>= λ busy. when busy body) n)
    release-next n = elim (Bool-cases (host.exists n args.device)) [
      | inl there ↦ rw there (EndsIn-after IsReleased [] (body (suc n)) (body-EndsIn (suc n)))
      | inr gone ↦ rw gone (release-answered n (host.is_attached (suc n) vol.id) gone refl)
    ]

  pub release-EndsIn : (left n : ℕ) → EndsIn IsReleased (release args host vol left n)
  unfolding release
  release-EndsIn zero n = tt
  release-EndsIn (suc left) n = release-next (release args host vol left) (release-EndsIn left) n

-- If the turn of a volume that has no tag of a cluster returns, the last answers were that the device
-- is gone and that the volume is not attached.
pub tag_volume-IsReleased :
    (args : Args) (host : Host) (vol : Volume) (n end : ℕ) (calls : List Call)
    → has_key "cluster" vol.tags ≡ false
    → tag_volume args host vol n ≡ (ok tt, end, calls)
    → IsReleased args host vol end
unfolding tag_volume
tag_volume-IsReleased args host vol n end calls untagged e =
    subst (EndsIn (IsReleased args host vol)) (rw untagged at e) (
      EndsIn-finally (IsReleased args host vol) (attach_and_tag args host vol)
        (release args host vol turns) (release-EndsIn args host vol turns) n)
