-- ===== src/Stacks/Create.antt =====
-- util/vpc-tools/create_stack.py. The statuses of a stack are answered by the number of the question.
use Prim.Native.String.{◌++◌ as ◌<>◌}
use configuration.Base.{
  ℕ, zero, suc, Bool, true, false, Option, none, some, List, [], ◌∷◌, String, string_eq, contains,
  if◌then◌else◌, has_part, basename, Result, ok, raised, other_error, index_error,
  s3_response_error, type_error, Dict, ◌>>=◌ as ◌>>>=◌,
}
use configuration.Base.Script.{Script, from, perform, except_exception, ◌>>=◌, ◌>>◌}

abbrev pub failure_states : List String
failure_states =
    "CREATE_FAILED" ∷ "ROLLBACK_IN_PROGRESS" ∷ "ROLLBACK_FAILED" ∷ "ROLLBACK_COMPLETE"
    ∷ "DELETE_IN_PROGRESS" ∷ "DELETE_FAILED" ∷ "DELETE_COMPLETE" ∷ []

pub data Call : Type 0 where
  create_bucket : String → Call
  upload : String → String → String → Call
  set_acl : String → String → String → Call
  create_stack_from update_stack_from : String → String → Dict String String → Call
  sleep : ℕ → Call
  print : String → Call

-- What S3 and CloudFormation answer. A bucket is known by its name.
pub record Aws : Type 0 where
  -- with the validation or without it
  pub get_bucket : String → Bool → Result String
  pub create_bucket : String → Result (Unit {0})
  pub upload : String → String → Result (Unit {0})
  pub set_acl : String → Result (Unit {0})
  pub create_stack : String → String → Result String
  pub update_stack : String → String → Result String
  -- the statuses of the stacks that are described
  pub describe_stacks : ℕ → String → Result (List String)

abbrev pub url_of : String → String → String
url_of bucket key = "https://s3.amazonaws.com/" <> bucket <> "/" <> key

abbrev pub first_status : List String → Result String
first_status [] = raised index_error
first_status (status ∷ statuses) = ok status

abbrev pub is_over : String → Bool
is_over status = has_part "COMPLETE" status

abbrev pub over_or : Script ℕ Call (Option String) → String → Script ℕ Call (Option String)
over_or again status = if is_over status then from (ok (some status)) else again

abbrev pub checked : String → Option String → Result (Option String)
checked stack_id none = ok none
checked stack_id (some status) =
    if contains failure_states status then raised other_error else ok (some stack_id)

abbrev pub key_of : String → String → String
key_of stack_name template = "devops/cloudformation/auto/" <> stack_name <> "_" <> basename template

-- `open(None)` is a `TypeError`.
abbrev pub cfn_params_from :
    (String → Result (Dict String String)) → Option String → Result (Dict String String)
cfn_params_from load none = raised type_error
cfn_params_from load (some filename) = load filename

abbrev pub tell_created : String → Option String → Script ℕ Call (Option String)
tell_created stack_name none = from (ok none)
tell_created stack_name (some stack_id) =
    perform (print ("Stack(" <> stack_name <> ") created.")) (ok (some stack_id))

module _ (aws : Aws) where
  abbrev pub make_bucket : String → Script ℕ Call String
  make_bucket bucket_name =
      perform (create_bucket bucket_name) (aws.create_bucket bucket_name)
      >> from (aws.get_bucket bucket_name false)

  -- `except S3ResponseError`
  abbrev pub bucket_or_make : String → Result String → Script ℕ Call String
  bucket_or_make bucket_name (raised s3_response_error) = make_bucket bucket_name
  bucket_or_make bucket_name answer = from answer

  abbrev pub upload_to : String → String → String → Script ℕ Call String
  upload_to file_path key_name bucket =
      perform (upload bucket key_name file_path) (aws.upload key_name file_path)
      >> perform (set_acl bucket key_name "public-read") (aws.set_acl key_name)
      >> perform (print ("URL: " <> url_of bucket key_name)) (ok (url_of bucket key_name))

  unfoldable pub upload_file : String → String → String → Script ℕ Call String
  upload_file file_path bucket_name key_name =
      bucket_or_make bucket_name (aws.get_bucket bucket_name true) >>= upload_to file_path key_name

  abbrev pub submit_stack : Bool → String → Dict String String → String → Script ℕ Call String
  submit_stack true stack_name parameters url =
      perform (update_stack_from stack_name url parameters) (aws.update_stack stack_name url)
  submit_stack false stack_name parameters url =
      perform (create_stack_from stack_name url parameters) (aws.create_stack stack_name url)

  -- The error is printed and raised again.
  abbrev pub reference : Bool → String → Dict String String → String → Script ℕ Call String
  reference update stack_name parameters url =
      except_exception (submit_stack update stack_name parameters url)
        (λ e. perform (print "error") (raised e))

  abbrev pub ask_status : String → Script ℕ Call String
  ask_status stack_id n = (aws.describe_stacks n stack_id >>>= first_status, suc n, [])

  -- One turn of the loop.
  abbrev pub next_status : String → Script ℕ Call String
  next_status stack_id = perform (sleep 5) (ok (tt {0})) >> ask_status stack_id >>= λ status.
      perform (print status) (ok status)

  -- The loop has no bound: `none` says that it has not ended after so many turns.
  unfoldable pub wait_status : String → ℕ → Script ℕ Call (Option String)
  wait_status stack_id zero = from (ok none)
  wait_status stack_id (suc turns) = next_status stack_id >>= over_or (wait_status stack_id turns)

  -- Where it does not block, the status is `None`, which is no state of failure.
  abbrev pub wait_if : Bool → ℕ → String → Script ℕ Call (Option String)
  wait_if true turns stack_id =
      wait_status stack_id turns >>= λ status. from (checked stack_id status)
  wait_if false turns stack_id = from (ok (some stack_id))

  -- The stack's id, or `none` where it still waits.
  unfoldable pub create_stack :
      ℕ
      → String
      → String
      → Bool
      → String
      → Dict String String
      → Bool
      → Script ℕ Call (Option String)
  create_stack turns stack_name template blocking temp_bucket parameters update =
      upload_file template temp_bucket (key_of stack_name template)
      >>= reference update stack_name parameters
      >>= wait_if blocking turns

  unfoldable pub main :
      (String → Result (Dict String String))
      → ℕ
      → String
      → String
      → String
      → Option String
      → Bool
      → Script ℕ Call (Option String)
  main load turns stack_name template bucket_name parameters update =
      from (cfn_params_from load parameters) >>= λ given.
      create_stack turns stack_name template true bucket_name given update
      >>= tell_created stack_name
