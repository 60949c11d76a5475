-- ===== src/Base/Script.antt =====
-- A script: code that reads and assigns global variables, calls outside services and may raise. The
-- calls that it has made come back in order, also where it raises.
pub mod Calls
pub mod Caught
pub mod Keeps
pub mod Remembers
pub mod Wait
use Prim.Native.String.{String}
use mathlib.Core.Path.{◌≡◌, refl}
use mathlib.Core.Bool.{Bool, true, false}
use mathlib.Core.Option.{Option, none, some}
use mathlib.Core.List.{List, [], ◌∷◌, ◌++◌, append_assoc, append-nil}
use Prim.Native.Nat.{ℕ, zero, suc, ◌+◌, ◌<◌}
use native.Mathlib.Omega.{arith}
use configuration.Base.Results.{
  Exception, system_exit, keyboard_interrupt, ec2_response_error, Result, ok, raised,
}

-- What `except Exception` catches: neither `SystemExit` nor `KeyboardInterrupt`.
abbrev pub is_exception : Exception → Bool
is_exception (system_exit code) = false
is_exception keyboard_interrupt = false
is_exception e = true

-- The code of an `EC2ResponseError`.
abbrev pub ec2_code : Exception → Option String
ec2_code (ec2_response_error code) = some code
ec2_code e = none

abbrev pub Run {ℓ κ μ} : Type ℓ → Type κ → Type μ → Type (ℓ ⊔ (κ ⊔ μ))
Run S C A = Result A × S × List C

abbrev pub Script {ℓ κ μ} : Type ℓ → Type κ → Type μ → Type (ℓ ⊔ (κ ⊔ μ))
Script S C A = S → Run S C A

module _ {ℓ κ μ} {S : Type ℓ} {C : Type κ} {A : Type μ} where
  abbrev pub after : List C → Run S C A → Run S C A
  after calls (result, s, more) = (result, s, calls ++ more)

module _ {ℓ κ μ} {S : Type ℓ} {C : Type κ} {A : Type μ} where
  -- An answer that changes nothing.
  abbrev pub from : Result A → Script S C A
  from result s = (result, s, [])

  abbrev pub perform : C → Result A → Script S C A
  perform c result s = (result, s, c ∷ [])

  abbrev pub handle_if : Bool → Run S C A → Run S C A → Run S C A
  handle_if true handled raising = handled
  handle_if false handled raising = raising

  abbrev pub handle : (Exception → Script S C A) → Run S C A → Run S C A
  handle handler (ok a, s, calls) = (ok a, s, calls)
  handle handler (raised e, s, calls) =
      handle_if (is_exception e) (after calls (handler e s)) (raised e, s, calls)

  abbrev pub except_exception : Script S C A → (Exception → Script S C A) → Script S C A
  except_exception body handler s = handle handler (body s)

  abbrev pub handle_code : Option String → (String → Run S C A) → Run S C A → Run S C A
  handle_code (some code) handled raising = handled code
  handle_code none handled raising = raising

  abbrev pub handle_ec2 : (String → Script S C A) → Run S C A → Run S C A
  handle_ec2 handler (ok a, s, calls) = (ok a, s, calls)
  handle_ec2 handler (raised e, s, calls) =
      handle_code (ec2_code e) (λ code. after calls (handler code s)) (raised e, s, calls)

  -- `except EC2ResponseError`
  abbrev pub except_ec2 : Script S C A → (String → Script S C A) → Script S C A
  except_ec2 body handler s = handle_ec2 handler (body s)

  -- What `finally` leaves: what it raises itself, or else what the body came to.
  abbrev pub outcome_of : Result A → Run S C (Unit {0}) → Run S C A
  outcome_of result (ok u, s, calls) = (result, s, calls)
  outcome_of result (raised e, s, calls) = (raised e, s, calls)

  abbrev pub close : Script S C (Unit {0}) → Run S C A → Run S C A
  close cleanup (result, s, calls) = outcome_of result (after calls (cleanup s))

  abbrev pub finally : Script S C A → Script S C (Unit {0}) → Script S C A
  finally body cleanup s = close cleanup (body s)

module _ {ℓ κ} {S : Type ℓ} {C : Type κ} where
  -- An assignment to a global variable.
  abbrev pub assign : (S → S) → Script S C (Unit {0})
  assign f s = (ok tt, f s, [])

module _ {ℓ κ μ ν} {S : Type ℓ} {C : Type κ} {A : Type μ} {B : Type ν} where
  abbrev pub continue : (A → Script S C B) → Run S C A → Run S C B
  continue next (ok a, s, calls) = after calls (next a s)
  continue next (raised e, s, calls) = (raised e, s, calls)

  infixl 5 ◌>>=◌ ◌>>◌
  abbrev pub ◌>>=◌ : Script S C A → (A → Script S C B) → Script S C B
  (m >>= next) s = continue next (m s)

  abbrev pub ◌>>◌ : Script S C A → Script S C B → Script S C B
  first >> second = first >>= λ _. second

module _ {ℓ κ} {S : Type ℓ} {C : Type κ} where
  abbrev pub unless_done : Script S C (Unit {0}) → Bool → Script S C (Unit {0})
  unless_done rest true = from (ok tt)
  unless_done rest false = rest

  abbrev pub when : Bool → Script S C (Unit {0}) → Script S C (Unit {0})
  when true body = body
  when false body = from (ok tt)

  -- `for x in xs`
  abbrev pub each {μ} : {A : Type μ} → (A → Script S C (Unit {0})) → List A → Script S C (Unit {0})
  each body [] = from (ok tt)
  each body (x ∷ xs) = body x >> each body xs

  -- `for _ in xrange(fuel)` with an attempt that may `break`, and an `else` that raises.
  unfoldable pub wait_until : (ℕ → Script S C Bool) → Exception → ℕ → ℕ → Script S C (Unit {0})
  wait_until attempt timeout zero n = from (raised timeout)
  wait_until attempt timeout (suc fuel) n =
      attempt n >>= unless_done (wait_until attempt timeout fuel (suc n))
