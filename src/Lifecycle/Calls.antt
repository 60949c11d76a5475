-- ===== src/Lifecycle/Calls.antt =====
-- What the two operations that change something call.
use configuration.Base.{
  ◌≡◌, ◌≢◌, inl, inr, false, String, string_eq, ok, raised, missing_host, Bool-cases,
}
use configuration.Base.Traced.{Only}
use configuration.Lifecycle.Handler.{
  Message, Call, check_output, delete_message, Aws, LifecycleHandler, split_blanks,
  run_subprocess_command, delete_sqs_message,
}

module _ (aws : Aws) (self : LifecycleHandler) where
  pub Only-run :
      (P : Call → Type 0) (command : String)
      → (self.dry_run ≡ false → P (check_output (split_blanks command)))
      → Only P (run_subprocess_command aws self command)
  unfolding run_subprocess_command
  Only-run P command h = elim (Bool-cases self.dry_run) [
    | inl dry ↦ rw dry tt
    | inr live ↦ rw live (h live, tt)
  ]

  pub Only-delete :
      (P : Call → Type 0) (m : Message)
      → (self.dry_run ≡ false → P (delete_message m))
      → Only P (delete_sqs_message aws self m)
  unfolding delete_sqs_message
  Only-delete P m h = elim (Bool-cases self.dry_run) [
    | inl dry ↦ rw dry tt
    | inr live ↦ rw live (h live, tt)
  ]

  pub ran :
      (command : String)
      → self.dry_run ≡ false
      → (run_subprocess_command aws self command).0 ≡ ok tt
      → aws.run (split_blanks command) ≡ ok tt
  unfolding run_subprocess_command
  ran command live h = rw live at h

  pub run_no_host :
      (command : String) → (run_subprocess_command aws self command).0 ≢ raised missing_host
  unfolding run_subprocess_command
  run_no_host command h = elim (Bool-cases self.dry_run) [
    | inl dry ↦ cc (rw dry at h)
    | inr live ↦ aws.run-missing_host (split_blanks command) (rw live at h)
  ]

  pub delete_no_host : (m : Message) → (delete_sqs_message aws self m).0 ≢ raised missing_host
  unfolding delete_sqs_message
  delete_no_host m h = elim (Bool-cases self.dry_run) [
    | inl dry ↦ cc (rw dry at h)
    | inr live ↦ aws.delete-missing_host m (rw live at h)
  ]
