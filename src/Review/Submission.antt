-- ===== src/Review/Submission.antt =====
-- types/types.go, `ExtendedSubmission`: what the search returns for a submission, with the fields
-- that the review and the access checks read. Ids are positive and only compared.
use flashpoint_submission_sy.Prelude.{ℕ, Bool, List, any, ◌==◌}
use flashpoint_submission_sy.Constants.Actions.{Action}

pub record ExtendedSubmission : Type 0 where
  pub submission_id : ℕ
  pub submitter_id : ℕ
  pub last_uploader_id : ℕ
  pub assigned_testing_user_ids : List ℕ
  pub assigned_verification_user_ids : List ℕ
  pub requested_changes_user_ids : List ℕ
  pub approved_user_ids : List ℕ
  pub verified_user_ids : List ℕ
  pub distinct_actions : List Action
  pub is_frozen : Bool
  pub should_autofreeze : Bool

-- service/comments_action_validator.go, `uidIn`.
unfoldable pub uid_in : ℕ → List ℕ → Bool
uid_in uid ids = any (λ assigned. uid == assigned) ids
