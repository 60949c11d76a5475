-- ===== src/Base/Results.antt =====
-- Python exceptions as values. What a call wrote before it raised is in the state that comes back.
use Prim.Native.Nat.{ℕ}
use Prim.Native.String.{String}
use mathlib.Core.Path.{◌≡◌, refl}

-- The exceptions that the tools raise themselves or that Python raises in them.
pub data Exception : Type 0 where
  value_error key_error index_error name_error type_error runtime_error : Exception
  attribute_error aws_connection_error s3_response_error missing_host networkx_error socket_error
        keyboard_interrupt other_error :
      Exception
  system_exit : ℕ → Exception
  -- boto's errors of EC2, by their code
  ec2_response_error : String → Exception

pub data Result {ℓ} (A : Type ℓ) : Type ℓ where
  ok : A → Result A
  raised : Exception → Result A

module _ {ℓ κ} {A : Type ℓ} {B : Type κ} where
  infixl 5 ◌>>=◌ ◌>>◌
  -- What was raised leaves out all that was to follow.
  abbrev pub ◌>>=◌ : Result A → (A → Result B) → Result B
  raised x >>= next = raised x
  ok a >>= next = next a

  abbrev pub ◌>>◌ : Result A → Result B → Result B
  first >> second = first >>= λ _. second

  pub >>=-eq-ok :
      (first : Result A) (next : A → Result B) {b : B}
      → (first >>= next) ≡ ok b
      → (a : A) × (first ≡ ok a) × (next a ≡ ok b)
  >>=-eq-ok (raised x) next h = cc
  >>=-eq-ok (ok a) next h = (a, refl, h)

-- Whatever is returned satisfies a predicate.
abbrev pub Returns {ℓ κ} : {A : Type ℓ} → (A → Type κ) → Result A → Type κ
Returns P (ok a) = P a
Returns P (raised x) = Unit

pub Returns->>= {ℓ κ μ ν} :
    {A : Type ℓ} {B : Type κ} (P : A → Type μ) (Q : B → Type ν) (m : Result A) (next : A → Result B)
    → Returns P m
    → ((a : A) → P a → Returns Q (next a))
    → Returns Q (m >>= next)
Returns->>= P Q (ok a) next h k = k a h
Returns->>= P Q (raised x) next h k = tt
