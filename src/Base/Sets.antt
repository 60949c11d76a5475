-- ===== src/Base/Sets.antt =====
-- Python's `in` on lists, and its sets as lists without repeated items. The program never uses the
-- order in which it walks a set, so theorems speak of membership only.
use Prim.Native.Nat.{ℕ, ◌+◌}
use mathlib.Core.Path.{◌≡◌, refl, subst, ◌∙◌}
use mathlib.Core.Bool.{Bool, Bool-set, true, false, ◌&&◌, ◌||◌}
use mathlib.Core.List.{List, [], ◌∷◌, ◌++◌}
use mathlib.Core.Logic.{inl, inr, ∥∥₁_elim}
use mathlib.Core.List.{Perm, Permᴰ}
use native.Mathlib.Omega.{arith}
use configuration.Base.Tests.{if◌then◌else◌, Bool-cases}
use configuration.Base.Classes.{Eq, ◌==◌, beq_refl}
use configuration.Base.Lists.{select, All}

module _ {ℓ} {A : Type ℓ} ⦃e : Eq A⦄ where
  -- `x in xs`
  abbrev pub contains : List A → A → Bool
  contains [] a = false
  contains (x ∷ xs) a = x == a || contains xs a

  -- `s.add(a)`
  abbrev pub insert : A → List A → List A
  insert a xs = if contains xs a then xs else a ∷ xs

  -- `s |= {…}`
  abbrev pub update : List A → List A → List A
  update s [] = s
  update s (x ∷ xs) = update (insert x s) xs

  -- How often an item stands in a list.
  abbrev pub count : A → List A → ℕ
  count a [] = 0
  count a (x ∷ xs) = (if x == a then 1 else 0) + count a xs

  pub contains-insert :
      (a b : A) (xs : List A) → contains (insert a xs) b ≡ (a == b || contains xs b)
  contains-insert a b xs = ground (arith, e.beq_iff a b)

  pub contains-update :
      (xs s : List A) (b : A) → contains (update s xs) b ≡ (contains s b || contains xs b)
  contains-update [] s b = ground arith
  contains-update (x ∷ xs) s b =
      ground (arith, contains-update xs (insert x s) b, contains-insert x b s)

  pub contains-append :
      (xs ys : List A) (b : A) → contains (xs ++ ys) b ≡ (contains xs b || contains ys b)
  contains-append [] ys b = refl
  contains-append (x ∷ xs) ys b = ground (arith, contains-append xs ys b)

  pub contains-select :
      (test : A → Bool) (xs : List A) (b : A)
      → contains (select test xs) b ≡ (contains xs b && test b)
  contains-select test [] b = refl
  contains-select test (x ∷ xs) b = ground (arith, e.beq_iff x b, contains-select test xs b)

  pub contains→All {κ} :
      (P : A → Type κ) (xs : List A) (a : A) → All P xs → contains xs a ≡ true → P a
  contains→All P [] a h m = cc
  contains→All P (x ∷ xs) a h m = elim (Bool-cases (x == a)) [
    | inl same ↦ subst P ((e.beq_iff x a).0 same) h.0
    | inr other ↦ contains→All P xs a h.1 (rw other at m)
  ]

  pub count-append : (a : A) (xs ys : List A) → count a (xs ++ ys) ≡ count a xs + count a ys
  count-append a [] ys = omega arith
  count-append a (x ∷ xs) ys = omega (arith, count-append a xs ys)

  contains-permᴰ : {xs ys : List A} (a : A) → Permᴰ xs ys → contains xs a ≡ contains ys a
  contains-permᴰ a Permᴰ.nil = refl
  contains-permᴰ a (Permᴰ.cons e p) = ground (arith, contains-permᴰ a p)
  contains-permᴰ a (Permᴰ.swap e f) = ground arith
  contains-permᴰ a (Permᴰ.trans p q) = contains-permᴰ a p ∙ contains-permᴰ a q

  pub contains-perm : {xs ys : List A} (a : A) → Perm xs ys → contains xs a ≡ contains ys a
  contains-perm a p = ∥∥₁_elim p (Bool-set _ _) (contains-permᴰ a)

  pub All-contains {κ} :
      (P : A → Type κ) (xs : List A) → ((a : A) → contains xs a ≡ true → P a) → All P xs
  All-contains P [] h = tt
  All-contains P (x ∷ xs) h = (h x (rw beq_refl), All-contains P xs (λ a m. h a (ground arith)))
