-- ===== src/Base/Lists.antt =====
-- Lists measured by the native numbers, and predicates on their items.
use Prim.Native.Nat.{ℕ, zero, suc, ◌+◌}
use mathlib.Core.Path.{◌≡◌, refl, ap}
use mathlib.Core.Logic.{◌⊎◌, inl, inr}
use mathlib.Core.Bool.{Bool}
use mathlib.Core.List.{List, [], ◌∷◌, ◌++◌, map}
use mathlib.Core.Option.{Option, none, some}
use native.Mathlib.Omega.{arith}
use configuration.Base.Tests.{if◌then◌else◌}

module _ {ℓ} {A : Type ℓ} where
  abbrev pub length : List A → ℕ
  length [] = 0
  length (x ∷ xs) = suc (length xs)

  abbrev pub get_elem? : List A → ℕ → Option A
  get_elem? [] i = none
  get_elem? (x ∷ xs) zero = some x
  get_elem? (x ∷ xs) (suc i) = get_elem? xs i

  -- `[x for x in xs if test(x)]`
  abbrev pub select : (A → Bool) → List A → List A
  select test [] = []
  select test (x ∷ xs) = let rest = select test xs in if test x then x ∷ rest else rest

  abbrev pub All {κ} : (A → Type κ) → List A → Type κ
  All P [] = Unit
  All P (x ∷ xs) = P x × All P xs

  pub length-append : (xs ys : List A) → length (xs ++ ys) ≡ length xs + length ys
  length-append [] ys = omega arith
  length-append (x ∷ xs) ys = omega (arith, length-append xs ys)

  pub All-append {κ} : (P : A → Type κ) (xs ys : List A) → All P xs → All P ys → All P (xs ++ ys)
  All-append P [] ys hx hy = hy
  All-append P (x ∷ xs) ys hx hy = (hx.0, All-append P xs ys hx.1 hy)

  pub All-imp {κ μ} :
      (P : A → Type κ) (Q : A → Type μ) (xs : List A) → ((x : A) → P x → Q x) → All P xs → All Q xs
  All-imp P Q [] f h = tt
  All-imp P Q (x ∷ xs) f h = (f x h.0, All-imp P Q xs f h.1)

  pub All-split {κ} : (P : A → Type κ) (xs ys : List A) → All P (xs ++ ys) → All P xs × All P ys
  All-split P [] ys h = (tt, h)
  All-split P (x ∷ xs) ys h = let (hx, hy) = All-split P xs ys h.1 in ((h.0, hx), hy)

module _ {ℓ κ} {A : Type ℓ} {B : Type κ} where
  pub length-map : (xs : List A) (f : A → B) → length (map f xs) ≡ length xs
  length-map [] f = refl
  length-map (x ∷ xs) f = ap suc (length-map xs f)

-- A place of an item in a list.
pub data IsIn {ℓ} {A : Type ℓ} (a : A) : List A → Type ℓ where
  at_front : {xs : List A} → IsIn a (a ∷ xs)
  behind : {x : A} {xs : List A} → IsIn a xs → IsIn a (x ∷ xs)

module _ {ℓ} {A : Type ℓ} where
  pub IsIn-append_left : {a : A} {xs : List A} (ys : List A) → IsIn a xs → IsIn a (xs ++ ys)
  IsIn-append_left ys at_front = at_front
  IsIn-append_left ys (behind m) = behind (IsIn-append_left ys m)

  pub IsIn-append_right : {a : A} (xs : List A) {ys : List A} → IsIn a ys → IsIn a (xs ++ ys)
  IsIn-append_right [] m = m
  IsIn-append_right (x ∷ xs) m = behind (IsIn-append_right xs m)

  pub IsIn-append_cases :
      {a : A} (xs : List A) {ys : List A} → IsIn a (xs ++ ys) → IsIn a xs ⊎ IsIn a ys
  IsIn-append_cases [] m = inr m
  IsIn-append_cases (x ∷ xs) at_front = inl at_front
  IsIn-append_cases (x ∷ xs) (behind m) = elim (IsIn-append_cases xs m) [
    | inl early ↦ inl (behind early)
    | inr late ↦ inr late
  ]

  pub All-IsIn {κ} : (P : A → Type κ) {a : A} {xs : List A} → All P xs → IsIn a xs → P a
  All-IsIn P h at_front = h.0
  All-IsIn P h (behind m) = All-IsIn P h.1 m
