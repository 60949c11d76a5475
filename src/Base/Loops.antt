-- ===== src/Base/Loops.antt =====
-- `for x in xs` with a body that changes a state and may raise.
use mathlib.Core.Path.{◌≡◌, refl, sym, subst}
use mathlib.Core.Bool.{Bool, true, false, ◌||◌}
use mathlib.Core.List.{List, [], ◌∷◌, ◌++◌, map, append_assoc, append-nil}
use mathlib.Core.Logic.{inl, inr, ◌⊎◌}
use native.Mathlib.Omega.{arith}
use configuration.Base.Tests.{Bool-cases}
use configuration.Base.Classes.{Eq, ◌==◌, beq_refl}
use configuration.Base.Sets.{contains}
use configuration.Base.Results.{Exception, Result, ok, raised, ◌>>=◌, >>=-eq-ok}

module _ {ℓ} {A : Type ℓ} where
  -- Whether some item passes a test.
  abbrev pub any : (A → Bool) → List A → Bool
  any test [] = false
  any test (x ∷ xs) = test x || any test xs

module _ {ℓ κ} {A : Type ℓ} {S : Type κ} where
  abbrev pub for_each : (A → S → Result S) → List A → S → Result S
  for_each body [] s = ok s
  for_each body (x ∷ xs) s = body x s >>= for_each body xs

  -- What each round adds to an observation of the state, all rounds add together.
  pub for_each_adds :
      (see : S → Bool) (adds : A → Bool) (body : A → S → Result S)
      → ((x : A) (s s' : S) → body x s ≡ ok s' → see s' ≡ (adds x || see s))
      → (xs : List A) (s s' : S) → for_each body xs s ≡ ok s'
      → see s' ≡ (any adds xs || see s)
  for_each_adds see adds body h [] s s' e = ground arith
  for_each_adds see adds body h (x ∷ xs) s s' e =
      let (t, first, rest) = >>=-eq-ok (body x s) (for_each body xs) e in
      ground (arith, h x s t first, for_each_adds see adds body h xs t s' rest)

module _ {ℓ κ} {A : Type ℓ} {B : Type κ} where
  -- `[y for x in xs for y in f(x)]`
  abbrev pub flat_map : (A → List B) → List A → List B
  flat_map f [] = []
  flat_map f (x ∷ xs) = f x ++ flat_map f xs

module _ {ℓ κ μ} {A : Type ℓ} {S : Type κ} {B : Type μ} where
  -- What each round appends to a list in the state, all rounds append together.
  pub for_each_appends :
      (see : S → List B) (adds : A → List B) (body : A → S → Result S)
      → ((x : A) (s s' : S) → body x s ≡ ok s' → see s' ≡ see s ++ adds x)
      → (xs : List A) (s s' : S) → for_each body xs s ≡ ok s'
      → see s' ≡ see s ++ flat_map adds xs
  for_each_appends see adds body h [] s s' e =
      let same : s ≡ s' = cc in rw same (sym (append-nil _))
  for_each_appends see adds body h (x ∷ xs) s s' e =
      let (t, first, rest) = >>=-eq-ok (body x s) (for_each body xs) e in
      rw (for_each_appends see adds body h xs t s' rest, h x s t first, append_assoc) refl

module _ {ℓ} {A : Type ℓ} ⦃e : Eq A⦄ where
  pub any_sound :
      (test : A → Bool) (xs : List A)
      → any test xs ≡ true
      → (x : A) × (contains xs x ≡ true) × (test x ≡ true)
  any_sound test [] h = cc
  any_sound test (x ∷ xs) h = elim (Bool-cases (test x)) [
    | inl passes ↦ (x, rw beq_refl, passes)
    | inr fails ↦ let (y, m, p) = any_sound test xs (rw fails at h) in (y, ground arith, p)
  ]

  pub any_complete :
      (test : A → Bool) (xs : List A) (x : A)
      → contains xs x ≡ true
      → test x ≡ true
      → any test xs ≡ true
  any_complete test [] x m p = cc
  any_complete test (y ∷ xs) x m p = ground (arith, any_complete test xs x, e.beq_iff y x)

module _ {ℓ κ} {A : Type ℓ} {B : Type κ} ⦃e : Eq A⦄ ⦃d : Eq B⦄ (f : A → B) where
  pub contains-map_sound :
      (xs : List A) (y : B)
      → contains (map f xs) y ≡ true
      → (x : A) × (contains xs x ≡ true) × (f x ≡ y)
  contains-map_sound [] y h = cc
  contains-map_sound (x ∷ xs) y h = elim (Bool-cases (f x == y)) [
    | inl same ↦ (x, rw beq_refl, (d.beq_iff (f x) y).0 same)
    | inr other ↦ let (z, m, p) = contains-map_sound xs y (rw other at h) in (z, ground arith, p)
  ]

  pub contains-map_complete :
      (xs : List A) (x : A) → contains xs x ≡ true → contains (map f xs) (f x) ≡ true
  contains-map_complete [] x m = cc
  contains-map_complete (z ∷ xs) x m =
      ground (arith, contains-map_complete xs x, e.beq_iff z x, d.beq_iff (f z) (f x))

module _ {ℓ κ} {A : Type ℓ} {S : Type κ} ⦃e : Eq A⦄ where
  -- If the loop returns, so did the round of each item.
  pub for_each_ok :
      (body : A → S → Result S) (xs : List A) (x : A) (s s' : S)
      → for_each body xs s ≡ ok s'
      → contains xs x ≡ true
      → (t : S) × (t' : S) × (body x t ≡ ok t')
  for_each_ok body [] x s s' h m = cc
  for_each_ok body (y ∷ xs) x s s' h m =
      let (t, first, rest) = >>=-eq-ok (body y s) (for_each body xs) h in
      elim (Bool-cases (y == x)) [
        | inl same ↦ (s, t, subst (λ z. body z s ≡ ok t) ((e.beq_iff y x).0 same) first)
        | inr other ↦ for_each_ok body xs x t s' rest (rw other at m)
      ]

  -- If no round raises, the loop returns.
  pub for_each_total :
      (body : A → S → Result S) (xs : List A) (s : S)
      → ((x : A) (t : S) → contains xs x ≡ true → (t' : S) × (body x t ≡ ok t'))
      → (s' : S) × (for_each body xs s ≡ ok s')
  for_each_total body [] s h = (s, refl)
  for_each_total body (x ∷ xs) s h =
      let (t, first) = h x s (rw beq_refl) in
      let (s', rest) = for_each_total body xs t (λ y u m. h y u (ground arith)) in
      (s', rw first rest)

  -- If a round may only raise `x`, and the round of an item does, so does the loop.
  pub for_each_raised :
      (body : A → S → Result S) (failure : Exception) (xs : List A) (x : A) (s : S)
      → ((y : A) (t : S) → ((t' : S) × (body y t ≡ ok t')) ⊎ (body y t ≡ raised failure))
      → ((t : S) → body x t ≡ raised failure)
      → contains xs x ≡ true
      → for_each body xs s ≡ raised failure
  for_each_raised body failure [] x s h f m = cc
  for_each_raised body failure (y ∷ xs) x s h f m = elim (h y s) [
    | inr fails ↦ rw fails
    | inl (t, first) ↦ elim (Bool-cases (y == x)) [
      | inl same ↦
          let e' = (e.beq_iff y x).0 same in
          let g = f s in absurd (let b : body y s ≡ raised failure = rw e' g in cc)
      | inr other ↦ rw first (for_each_raised body failure xs x t h f (rw other at m))
    ]
  ]
