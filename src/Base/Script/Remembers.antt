-- ===== src/Base/Script/Remembers.antt =====
-- Scripts that keep in a global variable what their calls have made. `Made c v` says that the call
-- `c` makes `v`.
use mathlib.Core.Path.{subst}
use configuration.Base.{
  Bool, true, false, Option, some, ◌≡◌, ◌∙◌, List, Exception, ok, raised, All, All-IsIn, ◌++◌, sym,
  IsIn-append_right, IsIn, inl, inr, IsIn-append_cases,
}
use configuration.Base.Script.{
  Run, Script, after, handle, close, handle_if, is_exception, except_exception, continue, ◌>>=◌,
}
use configuration.Base.Script.Calls.{close-calls}
use configuration.Base.Script.Keeps.{KeepsFrom, Keeps}

module _ {ℓ κ ν τ} {S : Type ℓ} {C : Type κ} {V : Type τ} (Made : C → V → Type ν)
    (see : S → Option V) where
  abbrev pub MakesNothing : C → Type (ν ⊔ τ)
  MakesNothing c = (v : V) → Made c v → ⊥

  abbrev pub Recalls : S → List C → Type (κ ⊔ (ν ⊔ τ))
  Recalls s calls = (c : C) (v : V) → IsIn c calls → Made c v → see s ≡ some v

  pub quiet-Recalls : (s : S) (calls : List C) → All MakesNothing calls → Recalls s calls
  quiet-Recalls s calls h c v i m = absurd (All-IsIn MakesNothing h i v m)

  module _ {μ} {A : Type μ} where
    abbrev pub Remembers : Run S C A → Type (κ ⊔ (ν ⊔ τ))
    Remembers (result, s, calls) = Recalls s calls

    pub Remembers-then_quiet :
        (s : S) (calls : List C) (r : Run S C A)
        → Recalls s calls
        → KeepsFrom MakesNothing see s r
        → Remembers (after calls r)
    Remembers-then_quiet s calls (answer, t, more) h k c v i m = elim (IsIn-append_cases calls i) [
      | inl early ↦ k.0 ∙ h c v early m
      | inr late ↦ absurd (All-IsIn MakesNothing k.1 late v m)
    ]

    pub Remembers-quiet_then :
        (calls : List C) (r : Run S C A)
        → All MakesNothing calls
        → Remembers r
        → Remembers (after calls r)
    Remembers-quiet_then calls (answer, t, more) q h c v i m = elim (IsIn-append_cases calls i) [
      | inl early ↦ absurd (All-IsIn MakesNothing q early v m)
      | inr late ↦ h c v late m
    ]

    Remembers-handle_if :
        (b : Bool) (handled raising : Run S C A)
        → Remembers handled
        → Remembers raising
        → Remembers (handle_if b handled raising)
    Remembers-handle_if true handled raising h k = h
    Remembers-handle_if false handled raising h k = k

    Remembers-handle :
        (handler : Exception → Script S C A) (r : Run S C A)
        → ((e : Exception) → Keeps MakesNothing see (handler e))
        → Remembers r
        → Remembers (handle handler r)
    Remembers-handle handler (ok a, t, calls) k h = h
    Remembers-handle handler (raised e, t, calls) k h =
        Remembers-handle_if (is_exception e) (after calls (handler e t)) (raised e, t, calls)
          (Remembers-then_quiet t calls (handler e t) h (k e t)) h

    pub Remembers-except_exception :
        (m : Script S C A) (handler : Exception → Script S C A)
        → ((s : S) → Remembers (m s))
        → ((e : Exception) → Keeps MakesNothing see (handler e))
        → (s : S) → Remembers (except_exception m handler s)
    Remembers-except_exception m handler h k s = Remembers-handle handler (m s) k (h s)

  module _ {μ ρ} {A : Type μ} {B : Type ρ} where
    Remembers-continue :
        (next : A → Script S C B) (r : Run S C A)
        → ((a : A) → Keeps MakesNothing see (next a))
        → Remembers r
        → Remembers (continue next r)
    Remembers-continue next (ok a, t, calls) k h = Remembers-then_quiet t calls (next a t) h (k a t)
    Remembers-continue next (raised e, t, calls) k h = h

    -- What makes comes first.
    pub Remembers->>=_quiet :
        (m : Script S C A) (next : A → Script S C B)
        → ((s : S) → Remembers (m s))
        → ((a : A) → Keeps MakesNothing see (next a))
        → (s : S) → Remembers ((m >>= next) s)
    Remembers->>=_quiet m next h k s = Remembers-continue next (m s) k (h s)

    Remembers-continue_from :
        (next : A → Script S C B) (s : S) (r : Run S C A)
        → KeepsFrom MakesNothing see s r
        → ((a : A) (t : S) → Remembers (next a t))
        → Remembers (continue next r)
    Remembers-continue_from next s (ok a, t, calls) k h =
        Remembers-quiet_then calls (next a t) k.1 (h a t)
    Remembers-continue_from next s (raised e, t, calls) k h = quiet-Recalls t calls k.1

    -- What makes comes later.
    pub Remembers-quiet_>>= :
        (m : Script S C A) (next : A → Script S C B)
        → Keeps MakesNothing see m
        → ((a : A) (t : S) → Remembers (next a t))
        → (s : S) → Remembers ((m >>= next) s)
    Remembers-quiet_>>= m next k h s = Remembers-continue_from next s (m s) (k s) h

  module _ {μ} {A : Type μ} where
    -- A `finally` that undoes what was made finds it in the variable.
    pub IsIn-close :
        (cleanup : Script S C (Unit {0})) (r : Run S C A)
        → Remembers r
        → Keeps MakesNothing see cleanup
        → (c : C) (v : V) (undo : C) → IsIn c (close cleanup r).2
        → Made c v
        → ((s : S) → see s ≡ some v → IsIn undo (cleanup s).2)
        → IsIn undo (close cleanup r).2
    IsIn-close cleanup (result, s, calls) h k c v undo i m u =
        let whole = close-calls cleanup result s calls in
        let i' : IsIn c (calls ++ (cleanup s).2) = subst (IsIn c) whole i in
        let e = Remembers-then_quiet s calls (cleanup s) h (k s) c v i' m in
        subst (IsIn undo) (sym whole) (IsIn-append_right calls (u s (sym (k s).0 ∙ e)))
