-- ===== src/Base/Script/Keeps.antt =====
-- Scripts that keep what a function sees of the global variables, and all of whose calls satisfy a
-- predicate.
use configuration.Base.{
  ℕ, zero, suc, Bool, true, false, Option, none, some, ◌≡◌, refl, ◌∙◌, List, [], ◌∷◌, IsIn,
  at_front, behind, String, Exception, Result, ok, raised, Returns, All, All-append, if◌then◌else◌,
}
use configuration.Base.Script.{
  Run, Script, after, from, perform, assign, when, handle, handle_if, is_exception,
  except_exception, handle_ec2, handle_code, ec2_code, except_ec2, continue, unless_done, each,
  wait_until, ◌>>=◌,
}

module _ {ℓ κ ν τ} {S : Type ℓ} {C : Type κ} {T : Type τ} (P : C → Type ν) (see : S → T) where
  module _ {μ} {A : Type μ} where
    abbrev pub KeepsFrom : S → Run S C A → Type (τ ⊔ ν)
    KeepsFrom s (result, t, calls) = (see t ≡ see s) × All P calls

    abbrev pub Keeps : Script S C A → Type (ℓ ⊔ (τ ⊔ ν))
    Keeps m = (s : S) → KeepsFrom s (m s)

    pub Keeps-from : (result : Result A) → Keeps (from result)
    Keeps-from result s = (refl, tt)

    pub Keeps-perform : (c : C) (result : Result A) → P c → Keeps (perform c result)
    Keeps-perform c result p s = (refl, (p, tt))

    pub Keeps-if : (b : Bool) (m n : Script S C A) → Keeps m → Keeps n → Keeps (if b then m else n)
    Keeps-if true m n h k = h
    Keeps-if false m n h k = k

    pub KeepsFrom-after :
        (s t : S) (calls : List C) (r : Run S C A)
        → see t ≡ see s
        → All P calls
        → KeepsFrom t r
        → KeepsFrom s (after calls r)
    KeepsFrom-after s t calls (result, u, more) e p h = (h.0 ∙ e, All-append P calls more p h.1)

    KeepsFrom-handle_if :
        (b : Bool) (s : S) (handled raising : Run S C A)
        → KeepsFrom s handled
        → KeepsFrom s raising
        → KeepsFrom s (handle_if b handled raising)
    KeepsFrom-handle_if true s handled raising h k = h
    KeepsFrom-handle_if false s handled raising h k = k

    KeepsFrom-handle :
        (handler : Exception → Script S C A) (s : S) (r : Run S C A)
        → ((e : Exception) → Keeps (handler e))
        → KeepsFrom s r
        → KeepsFrom s (handle handler r)
    KeepsFrom-handle handler s (ok a, t, calls) k h = h
    KeepsFrom-handle handler s (raised e, t, calls) k h =
        KeepsFrom-handle_if (is_exception e) s (after calls (handler e t)) (raised e, t, calls)
          (KeepsFrom-after s t calls (handler e t) h.0 h.1 (k e t)) h

    pub Keeps-except_exception :
        (m : Script S C A) (handler : Exception → Script S C A)
        → Keeps m
        → ((e : Exception) → Keeps (handler e))
        → Keeps (except_exception m handler)
    Keeps-except_exception m handler h k s = KeepsFrom-handle handler s (m s) k (h s)

    KeepsFrom-handle_code :
        (code : Option String) (s : S) (handled : String → Run S C A) (raising : Run S C A)
        → ((c : String) → KeepsFrom s (handled c))
        → KeepsFrom s raising
        → KeepsFrom s (handle_code code handled raising)
    KeepsFrom-handle_code (some code) s handled raising h k = h code
    KeepsFrom-handle_code none s handled raising h k = k

    KeepsFrom-handle_ec2 :
        (handler : String → Script S C A) (s : S) (r : Run S C A)
        → ((code : String) → Keeps (handler code))
        → KeepsFrom s r
        → KeepsFrom s (handle_ec2 handler r)
    KeepsFrom-handle_ec2 handler s (ok a, t, calls) k h = h
    KeepsFrom-handle_ec2 handler s (raised e, t, calls) k h =
        KeepsFrom-handle_code (ec2_code e) s (λ c. after calls (handler c t)) (raised e, t, calls)
          (λ c. KeepsFrom-after s t calls (handler c t) h.0 h.1 (k c t)) h

    pub Keeps-except_ec2 :
        (m : Script S C A) (handler : String → Script S C A)
        → Keeps m
        → ((code : String) → Keeps (handler code))
        → Keeps (except_ec2 m handler)
    Keeps-except_ec2 m handler h k s = KeepsFrom-handle_ec2 handler s (m s) k (h s)

  module _ {μ ρ} {A : Type μ} {B : Type ρ} where
    KeepsFrom-continue :
        (next : A → Script S C B) (s : S) (r : Run S C A)
        → ((a : A) → Keeps (next a))
        → KeepsFrom s r
        → KeepsFrom s (continue next r)
    KeepsFrom-continue next s (ok a, t, calls) k h =
        KeepsFrom-after s t calls (next a t) h.0 h.1 (k a t)
    KeepsFrom-continue next s (raised e, t, calls) k h = h

    pub Keeps->>= :
        (m : Script S C A) (next : A → Script S C B)
        → Keeps m
        → ((a : A) → Keeps (next a))
        → Keeps (m >>= next)
    Keeps->>= m next h k s = KeepsFrom-continue next s (m s) k (h s)

  module _ {μ ρ} {A : Type μ} {B : Type ρ} where
    KeepsFrom-continue_ok :
        (next : A → Script S C B) (s : S) (r : Run S C A)
        → ((a : A) → r.0 ≡ ok a → Keeps (next a))
        → KeepsFrom s r
        → KeepsFrom s (continue next r)
    KeepsFrom-continue_ok next s (ok a, t, calls) k h =
        KeepsFrom-after s t calls (next a t) h.0 h.1 (k a refl t)
    KeepsFrom-continue_ok next s (raised e, t, calls) k h = h

    -- What follows may rely on what came before having returned.
    pub Keeps->>=_ok :
        (m : Script S C A) (next : A → Script S C B)
        → Keeps m
        → ((s : S) (a : A) → (m s).0 ≡ ok a → Keeps (next a))
        → Keeps (m >>= next)
    Keeps->>=_ok m next h k s = KeepsFrom-continue_ok next s (m s) (k s) (h s)

  pub Keeps-each {μ} :
      {A : Type μ} (body : A → Script S C (Unit {0})) (xs : List A)
      → ((x : A) → IsIn x xs → Keeps (body x))
      → Keeps (each body xs)
  Keeps-each body [] h s = (refl, tt)
  Keeps-each body (x ∷ xs) h s =
      Keeps->>= (body x) (λ _. each body xs) (h x at_front)
        (λ _. Keeps-each body xs (λ y i. h y (behind i))) s

  module _ {μ ρ σ} {A : Type μ} {B : Type ρ} (Q : A → Type σ) where
    pub Keeps-from->>= :
        (result : Result A) (next : A → Script S C B)
        → Returns Q result
        → ((a : A) → Q a → Keeps (next a))
        → Keeps (from result >>= next)
    Keeps-from->>= (ok a) next q k s = k a q s
    Keeps-from->>= (raised e) next q k s = (refl, tt)

  pub Keeps-assign : (f : S → S) → ((s : S) → see (f s) ≡ see s) → Keeps (assign {C = C} f)
  Keeps-assign f h s = (h s, tt)

  pub Keeps-when : (b : Bool) (m : Script S C (Unit {0})) → Keeps m → Keeps (when b m)
  Keeps-when true m h s = h s
  Keeps-when false m h s = (refl, tt)

  pub Keeps-unless_done : (b : Bool) (m : Script S C (Unit {0})) → Keeps m → Keeps (unless_done m b)
  Keeps-unless_done true m h s = (refl, tt)
  Keeps-unless_done false m h s = h s

  pub Keeps-wait_until :
      (attempt : ℕ → Script S C Bool) (timeout : Exception) (fuel n : ℕ)
      → ((i : ℕ) → Keeps (attempt i))
      → Keeps (wait_until attempt timeout fuel n)
  unfolding wait_until
  Keeps-wait_until attempt timeout zero n h s = (refl, tt)
  Keeps-wait_until attempt timeout (suc fuel) n h s =
      Keeps->>= (attempt n) (unless_done (wait_until attempt timeout fuel (suc n))) (h n)
        (λ b.
          Keeps-unless_done b (wait_until attempt timeout fuel (suc n))
            (Keeps-wait_until attempt timeout fuel (suc n) h))
        s
