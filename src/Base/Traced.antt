-- ===== src/Base/Traced.antt =====
-- Code that calls outside services: the calls that it has made, in order, beside its result. A call
-- that raises has been made.
use mathlib.Core.Path.{◌≡◌, refl}
use mathlib.Core.List.{List, [], ◌∷◌, ◌++◌, append_assoc}
use configuration.Base.Results.{missing_host, Result, ok, raised}
use configuration.Base.Lists.{
  All, All-append, IsIn, at_front, behind, IsIn-append_left, IsIn-append_right,
}

abbrev pub Traced {ℓ κ} : Type ℓ → Type κ → Type (ℓ ⊔ κ)
Traced C A = Result A × List C

module _ {ℓ κ} {C : Type ℓ} {A : Type κ} where
  -- A result that needs no call whose effect counts.
  abbrev pub from : Result A → Traced C A
  from result = (result, [])

  abbrev pub perform : C → Result A → Traced C A
  perform c result = (result, c ∷ [])

  -- `try: body` with `except MissingHostError: handler`
  abbrev pub except_missing_host : Traced C A → Traced C A → Traced C A
  except_missing_host (raised missing_host, calls) handler = (handler.0, calls ++ handler.1)
  except_missing_host (ok a, calls) handler = (ok a, calls)
  except_missing_host (raised x, calls) handler = (raised x, calls)

  -- Every call satisfies a predicate.
  abbrev pub Only {μ} : (C → Type μ) → Traced C A → Type μ
  Only P m = All P m.1

module _ {ℓ κ μ} {C : Type ℓ} {A : Type κ} {B : Type μ} where
  infixl 5 ◌>>=◌ ◌>>◌
  abbrev pub ◌>>=◌ : Traced C A → (A → Traced C B) → Traced C B
  (raised x, calls) >>= next = (raised x, calls)
  (ok a, calls) >>= next = ((next a).0, calls ++ (next a).1)

  abbrev pub ◌>>◌ : Traced C A → Traced C B → Traced C B
  first >> second = first >>= λ _. second

  pub Only->>= {ν} :
      (P : C → Type ν) (m : Traced C A) (next : A → Traced C B)
      → Only P m
      → ((a : A) → m.0 ≡ ok a → Only P (next a))
      → Only P (m >>= next)
  Only->>= P (raised x, calls) next h hs = h
  Only->>= P (ok a, calls) next h hs = All-append P calls (next a).1 h (hs a refl)

module _ {ℓ} {C : Type ℓ} where
  extend_step :
      (first rest whole last : Traced C (Unit {0}))
      → (first >> rest).0 ≡ ok tt
      → (rest.0 ≡ ok tt → whole ≡ (last.0, rest.1 ++ last.1))
      → (first >> whole) ≡ (last.0, (first >> rest).1 ++ last.1)
  extend_step (raised x, calls) rest whole last h hs = absurd (cc h)
  extend_step (ok u, calls) rest whole last h hs = rw (hs h, append_assoc) refl

module _ {ℓ κ} {C : Type ℓ} {A : Type κ} where
  -- `for x in xs` with a body that returns nothing
  abbrev pub traced_each : (A → Traced C (Unit {0})) → List A → Traced C (Unit {0})
  traced_each body [] = from (ok tt)
  traced_each body (x ∷ xs) = body x >>= λ _. traced_each body xs

  -- The rest of a loop runs as a loop of its own once the front has ended without an error.
  pub traced_each-append :
      (body : A → Traced C (Unit {0})) (xs ys : List A)
      → (traced_each body xs).0 ≡ ok tt
      → traced_each body (xs ++ ys)
        ≡ ((traced_each body ys).0, (traced_each body xs).1 ++ (traced_each body ys).1)
  traced_each-append body [] ys h = refl
  traced_each-append body (x ∷ xs) ys h =
      extend_step (body x) (traced_each body xs) (traced_each body (xs ++ ys)) (traced_each body ys)
        h (traced_each-append body xs ys)

pub Only-except_missing_host {ℓ κ ν} :
    {C : Type ℓ} {A : Type κ} (P : C → Type ν) (m handler : Traced C A)
    → Only P m
    → (m.0 ≡ raised missing_host → Only P handler)
    → Only P (except_missing_host m handler)
Only-except_missing_host P (ok a, calls) handler h hs = h
Only-except_missing_host P (raised missing_host, calls) handler h hs =
    All-append P calls handler.1 h (hs refl)
Only-except_missing_host P (raised x, calls) handler h hs = h

pub IsIn-except_missing_host {ℓ κ} :
    {C : Type ℓ} {A : Type κ} (m handler : Traced C A) (c : C)
    → IsIn c m.1
    → IsIn c (except_missing_host m handler).1
IsIn-except_missing_host (ok a, calls) handler c i = i
IsIn-except_missing_host (raised missing_host, calls) handler c i = IsIn-append_left handler.1 i
IsIn-except_missing_host (raised x, calls) handler c i = i

module _ {ℓ} {C : Type ℓ} where
  pub IsIn-first_step :
      (step rest : Traced C (Unit {0})) (c : C) → IsIn c step.1 → IsIn c (step >> rest).1
  IsIn-first_step (raised x, calls) rest c m = m
  IsIn-first_step (ok u, calls) rest c m = IsIn-append_left rest.1 m

  IsIn-later_step :
      (step rest : Traced C (Unit {0})) (c : C)
      → (step >> rest).0 ≡ ok tt
      → (rest.0 ≡ ok tt → IsIn c rest.1)
      → IsIn c (step >> rest).1
  IsIn-later_step (raised x, calls) rest c h m = absurd (cc h)
  IsIn-later_step (ok u, calls) rest c h m = IsIn-append_right calls (m h)

  pub ok_step :
      (step rest : Traced C (Unit {0})) → step.0 ≡ ok tt → rest.0 ≡ ok tt → (step >> rest).0 ≡ ok tt
  ok_step (raised x, calls) rest h r = absurd (cc h)
  ok_step (ok u, calls) rest h r = r

module _ {ℓ κ} {C : Type ℓ} {A : Type κ} where
  pub Only-traced_each {ν} :
      (P : C → Type ν) (body : A → Traced C (Unit {0})) (xs : List A)
      → ((x : A) → IsIn x xs → Only P (body x))
      → Only P (traced_each body xs)
  Only-traced_each P body [] h = tt
  Only-traced_each P body (x ∷ xs) h =
      Only->>= P (body x) (λ _. traced_each body xs) (h x at_front)
        (λ _ _. Only-traced_each P body xs (λ y m. h y (behind m)))

  -- A loop that ends without an error makes the calls of each of its rounds.
  pub IsIn-traced_each :
      (body : A → Traced C (Unit {0})) (x : A) (xs : List A) (c : C)
      → (traced_each body xs).0 ≡ ok tt
      → IsIn x xs
      → IsIn c (body x).1
      → IsIn c (traced_each body xs).1
  IsIn-traced_each body x [] c h i m = elim i [ ]
  IsIn-traced_each body x (y ∷ xs) c h at_front m =
      IsIn-first_step (body x) (traced_each body xs) c m
  IsIn-traced_each body x (y ∷ xs) c h (behind i) m =
      IsIn-later_step (body y) (traced_each body xs) c h
        (λ rest. IsIn-traced_each body x xs c rest i m)

  pub traced_each-ok :
      (body : A → Traced C (Unit {0})) (xs : List A)
      → ((x : A) → IsIn x xs → (body x).0 ≡ ok tt)
      → (traced_each body xs).0 ≡ ok tt
  traced_each-ok body [] h = refl
  traced_each-ok body (x ∷ xs) h =
      ok_step (body x) (traced_each body xs) (h x at_front)
        (traced_each-ok body xs (λ y m. h y (behind m)))
