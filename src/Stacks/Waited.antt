-- ===== src/Stacks/Waited.antt =====
-- How the wait for a stack of create_stack.py ends.
use configuration.Base.{
  ℕ, zero, suc, ◌+◌, ◌≤◌, ◌<◌, Bool, true, false, Option, none, some, ◌≡◌, refl, List, String,
  Result, ok, raised, contains, string_eq, if◌then◌else◌, arith, ◌∙◌, Dict, nat_eq, ◌==◌,
  Bool-cases, inl, inr, other_error, ◌>>=◌ as ◌>>>=◌,
}
use configuration.Base.Script.{Run, from, continue}
use configuration.Stacks.Create.{
  Call, Aws, failure_states, first_status, is_over, wait_status, checked, wait_if, key_of, url_of,
  reference, upload_file, create_stack,
}

module _ (aws : Aws) (stack_id : String) where
  -- What a question about the stack is answered with.
  abbrev pub status_at : ℕ → Result String
  status_at n = aws.describe_stacks n stack_id >>>= first_status

  -- A status that does not end the wait.
  pub record GoesOn (n : ℕ) : Type 0 where
    pub status : String
    pub answered : status_at n ≡ ok status
    pub not_over : is_over status ≡ false

  wait_status-on :
      (turns n : ℕ)
      → GoesOn n
      → ((wait_status aws stack_id (suc turns) n).0 ≡ (wait_status aws stack_id turns (suc n)).0)
  unfolding wait_status
  wait_status-on turns n g = rw (g.answered, g.not_over) refl

  wait_status-over :
      (turns n : ℕ) (status : String)
      → status_at n ≡ ok status
      → is_over status ≡ true
      → (wait_status aws stack_id (suc turns) n).0 ≡ ok (some status)
  unfolding wait_status
  wait_status-over turns n status e over = rw (e, over) refl

  wait_status-last :
      (turns n last : ℕ) (status : String)
      → ((i : ℕ) → n ≤ i → i < last → GoesOn i)
      → n ≤ last
      → last < n + turns
      → status_at last ≡ ok status
      → is_over status ≡ true
      → (wait_status aws stack_id turns n).0 ≡ ok (some status)
  wait_status-last zero n last status h le lt e over = absurd (omega (arith, le, lt))
  wait_status-last (suc turns) n last status h le lt e over = elim (Bool-cases (n == last)) [
    | inl here ↦
        let same : n ≡ last = ground arith in wait_status-over turns n status (rw same e) over
    | inr on ↦ rw (wait_status-on turns n (h n (omega arith) (ground arith))) (
        wait_status-last turns (suc n) last status (λ i m. h i (omega (arith, m))) (ground arith)
          (omega (arith, lt)) e over)
  ]

  wait_status-waits :
      (turns n : ℕ) → ((i : ℕ) → GoesOn i) → (wait_status aws stack_id turns n).0 ≡ ok none
  unfolding wait_status
  wait_status-waits zero n h = refl
  wait_status-waits (suc turns) n h =
      rw (wait_status-on turns n (h n)) (wait_status-waits turns (suc n) h)

checked_after :
    (stack_id : String) (end : Option String) (r : Run ℕ Call (Option String))
    → r.0 ≡ ok end
    → (continue (λ status. from (checked stack_id status)) r).0 ≡ checked stack_id end
checked_after stack_id end (ok o, n, calls) e = let same : o ≡ end = cc in rw same refl
checked_after stack_id end (raised x, n, calls) e = absurd (cc e)

-- Once the stack is there.
wait_if-over :
    (aws : Aws) (stack_id : String) (turns last : ℕ) (status : String)
    → ((i : ℕ) → i < last → GoesOn aws stack_id i)
    → last < turns
    → status_at aws stack_id last ≡ ok status
    → is_over status ≡ true
    → (wait_if aws true turns stack_id 0).0
      ≡ (if contains failure_states status then raised other_error else ok (some stack_id))
wait_if-over aws stack_id turns last status h lt e over =
    checked_after stack_id (some status) (wait_status aws stack_id turns 0) (
      wait_status-last aws stack_id turns 0 last status (λ i le. h i) (omega arith)
        (omega (arith, lt)) e over)

wait_if-waits :
    (aws : Aws) (stack_id : String) (turns n : ℕ)
    → ((i : ℕ) → GoesOn aws stack_id i)
    → (wait_if aws true turns stack_id n).0 ≡ ok none
wait_if-waits aws stack_id turns n h =
    checked_after stack_id none (wait_status aws stack_id turns n)
      (wait_status-waits aws stack_id turns n h)

abbrev answer_of : Aws → Bool → String → String → Result String
answer_of aws update stack_name url =
    if update then aws.update_stack stack_name url else aws.create_stack stack_name url

-- The template is uploaded to a bucket that is there, and the stack is created or updated.
pub record IsSubmitted (aws : Aws) (stack_name template temp_bucket : String) (update : Bool)
    (stack_id : String) : Type 0 where
  pub bucket : String
  pub found : aws.get_bucket temp_bucket true ≡ ok bucket
  pub uploaded : aws.upload (key_of stack_name template) template ≡ ok tt
  pub readable : aws.set_acl (key_of stack_name template) ≡ ok tt
  pub submitted :
      answer_of aws update stack_name (url_of bucket (key_of stack_name template)) ≡ ok stack_id

reference-ok :
    (aws : Aws) (update : Bool) (stack_name : String) (parameters : Dict String String)
    (url stack_id : String) (n : ℕ)
    → answer_of aws update stack_name url ≡ ok stack_id
    → (calls : List Call) × (reference aws update stack_name parameters url n
        ≡ (ok stack_id, n, calls))
reference-ok aws true stack_name parameters url stack_id n e = rw e (_, refl)
reference-ok aws false stack_name parameters url stack_id n e = rw e (_, refl)

create_stack-waits :
    (aws : Aws) (turns : ℕ) (stack_name template temp_bucket : String)
    (parameters : Dict String String) (update blocking : Bool) (stack_id : String)
    → IsSubmitted aws stack_name template temp_bucket update stack_id
    → (create_stack aws turns stack_name template blocking temp_bucket parameters update 0).0
      ≡ (wait_if aws blocking turns stack_id 0).0
unfolding create_stack upload_file
create_stack-waits aws turns stack_name template temp_bucket parameters update blocking stack_id s =
    let url = url_of s.bucket (key_of stack_name template) in
    let (calls, e) = reference-ok aws update stack_name parameters url stack_id 0 s.submitted in
    rw (s.found, s.uploaded, s.readable, e) refl

-- If the template can be uploaded and the stack is created or updated, a blocking call ends with the
-- first status that has "COMPLETE" in it, however many turns more are given: it returns the stack's
-- id, or it raises if the status is one of failure.
pub create_stack-over :
    (aws : Aws) (turns : ℕ) (stack_name template temp_bucket : String)
    (parameters : Dict String String) (update : Bool) (stack_id : String) (last : ℕ)
    (status : String)
    → IsSubmitted aws stack_name template temp_bucket update stack_id
    → ((i : ℕ) → i < last → GoesOn aws stack_id i)
    → last < turns
    → status_at aws stack_id last ≡ ok status
    → is_over status ≡ true
    → (create_stack aws turns stack_name template true temp_bucket parameters update 0).0
      ≡ (if contains failure_states status then raised other_error else ok (some stack_id))
create_stack-over aws turns stack_name template temp_bucket parameters update stack_id last status s
      h lt e over =
    create_stack-waits aws turns stack_name template temp_bucket parameters update true stack_id s
    ∙ wait_if-over aws stack_id turns last status h lt e over

-- If the template can be uploaded and the stack is created or updated, a blocking call waits on, for
-- however many turns, as long as no status has "COMPLETE" in it, as "CREATE_FAILED" has not.
pub create_stack-waits_on :
    (aws : Aws) (turns : ℕ) (stack_name template temp_bucket : String)
    (parameters : Dict String String) (update : Bool) (stack_id : String)
    → IsSubmitted aws stack_name template temp_bucket update stack_id
    → ((i : ℕ) → GoesOn aws stack_id i)
    → (create_stack aws turns stack_name template true temp_bucket parameters update 0).0 ≡ ok none
create_stack-waits_on aws turns stack_name template temp_bucket parameters update stack_id s h =
    create_stack-waits aws turns stack_name template temp_bucket parameters update true stack_id s
    ∙ wait_if-waits aws stack_id turns 0 h
