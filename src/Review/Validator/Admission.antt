-- ===== src/Review/Validator/Admission.antt =====
-- What `isActionValidForSubmission` lets through, stated action by action.
use flashpoint_submission_sy.Prelude.{ℕ, ◌≡◌, ◌≢◌, ◌↔◌, true, false, none, [], arith}
use flashpoint_submission_sy.Constants.Actions.{
  Action, approve, request_changes, mark_added, upload, verify, assign_testing, unassign_testing,
  assign_verification, unassign_verification, reject,
}
use flashpoint_submission_sy.Review.Submission.{ExtendedSubmission, uid_in}
use flashpoint_submission_sy.Review.Validator.{
  marked_added, is_rejected, is_action_valid_for_submission,
}

-- The conditions under which a user may take an action on a submission.
abbrev pub Admissible : ℕ → Action → ExtendedSubmission → Type 0
Admissible uid assign_testing s =
    (marked_added s ≡ false)
    × (uid ≢ s.last_uploader_id)
    × (uid_in uid s.assigned_testing_user_ids ≡ false)
    × (uid_in uid s.assigned_verification_user_ids ≡ false)
    × (uid_in uid s.verified_user_ids ≡ false)
    × (uid_in uid s.approved_user_ids ≡ false)
Admissible uid unassign_testing s =
    (marked_added s ≡ false) × (uid_in uid s.assigned_testing_user_ids ≡ true)
Admissible uid assign_verification s =
    (marked_added s ≡ false)
    × (uid ≢ s.last_uploader_id)
    × (uid_in uid s.assigned_verification_user_ids ≡ false)
    × (uid_in uid s.assigned_testing_user_ids ≡ false)
    × (uid_in uid s.approved_user_ids ≡ false)
    × (s.approved_user_ids ≢ [])
    × (uid_in uid s.verified_user_ids ≡ false)
Admissible uid unassign_verification s =
    (marked_added s ≡ false) × (uid_in uid s.assigned_verification_user_ids ≡ true)
Admissible uid approve s =
    (marked_added s ≡ false)
    × (uid ≢ s.last_uploader_id)
    × (uid_in uid s.approved_user_ids ≡ false)
    × (uid_in uid s.verified_user_ids ≡ false)
    × (uid_in uid s.assigned_testing_user_ids ≡ true)
Admissible uid verify s =
    (marked_added s ≡ false)
    × (uid ≢ s.last_uploader_id)
    × (uid_in uid s.verified_user_ids ≡ false)
    × (uid_in uid s.approved_user_ids ≡ false)
    × (uid_in uid s.assigned_verification_user_ids ≡ true)
    × (s.approved_user_ids ≢ [])
Admissible uid request_changes s = (marked_added s ≡ false) × (uid ≢ s.last_uploader_id)
Admissible uid reject s = (marked_added s ≡ false) × (is_rejected s ≡ false)
Admissible uid mark_added s = (marked_added s ≡ false) × (s.verified_user_ids ≢ [])
Admissible uid upload s = is_rejected s ≡ false
Admissible uid _ s = Unit

-- The validator accepts an action exactly when the action's conditions hold.
pub is_action_valid_for_submission_iff :
    (uid : ℕ) (a : Action) (s : ExtendedSubmission)
    → (is_action_valid_for_submission uid a s ≡ none) ↔ Admissible uid a s
unfolding is_action_valid_for_submission
is_action_valid_for_submission_iff uid assign_testing s = ground arith
is_action_valid_for_submission_iff uid _ s = ground arith
