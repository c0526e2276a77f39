-- ===== src/Review/Validator.antt =====
-- service/comments_action_validator.go, `isActionValidForSubmission`: the groups of checks in their
-- order, each a function of the action. `none` is a nil error.
pub mod Admission
use flashpoint_submission_sy.Prelude.{
  ℕ, Bool, true, false, ◌&&◌, not, Option, none, Error, Message, about, perr, bad_request,
  ◌or_else◌, refuse_if, length, ◌==◌,
}
use flashpoint_submission_sy.Constants.Actions.{
  Action, comment, approve, request_changes, mark_added, upload, verify, assign_testing,
  unassign_testing, assign_verification, unassign_verification, reject, action_in,
}
use flashpoint_submission_sy.Review.Submission.{ExtendedSubmission, uid_in}

-- `markedAdded`
unfoldable pub marked_added : ExtendedSubmission → Bool
marked_added s = action_in mark_added s.distinct_actions

-- The loop over the distinct actions that looks for a rejection.
unfoldable pub is_rejected : ExtendedSubmission → Bool
is_rejected s = action_in reject s.distinct_actions

-- The cases of the `switch` that import closes.
abbrev pub is_review_action : Action → Bool
is_review_action assign_testing = true
is_review_action unassign_testing = true
is_review_action assign_verification = true
is_review_action unassign_verification = true
is_review_action approve = true
is_review_action verify = true
is_review_action request_changes = true
is_review_action reject = true
is_review_action _ = false

review_closed : Action → ExtendedSubmission → Option Error
review_closed a s = refuse_if (marked_added s && is_review_action a) (
    perr
      (about
        "submission %d is already marked as added so review actions are closed; please submit a bug report or a pending fix"
        s.submission_id)
      bad_request)

-- Don't let the last uploader decide on the submission.
own_upload : ℕ → Action → ExtendedSubmission → Option Error
own_upload uid assign_testing s = refuse_if (uid == s.last_uploader_id) (
    perr
      (about "you are the uploader of the newest version of submission %d, so you cannot assign it"
        s.submission_id)
      bad_request)
own_upload uid assign_verification s = refuse_if (uid == s.last_uploader_id) (
    perr
      (about "you are the uploader of the newest version of submission %d, so you cannot assign it"
        s.submission_id)
      bad_request)
own_upload uid approve s = refuse_if (uid == s.last_uploader_id) (
    perr
      (about "you are the uploader of the newest version of submission %d, so you cannot approve it"
        s.submission_id)
      bad_request)
own_upload uid request_changes s = refuse_if (uid == s.last_uploader_id) (
    perr
      (about
        "you are the uploader of the newest version of submission %d, so you cannot request changes on it"
        s.submission_id)
      bad_request)
own_upload uid verify s = refuse_if (uid == s.last_uploader_id) (
    perr
      (about "you are the uploader of the newest version of submission %d, so you cannot verify it"
        s.submission_id)
      bad_request)
own_upload uid _ s = none

-- Stop double actions.
double_action : ℕ → Action → ExtendedSubmission → Option Error
double_action uid assign_testing s =
    refuse_if (uid_in uid s.assigned_testing_user_ids)
      (perr (about "you are already assigned to test submission %d" s.submission_id) bad_request)
double_action uid unassign_testing s =
    refuse_if (not (uid_in uid s.assigned_testing_user_ids))
      (perr (about "you are not assigned to test submission %d" s.submission_id) bad_request)
double_action uid assign_verification s =
    refuse_if (uid_in uid s.assigned_verification_user_ids)
      (perr (about "you are already assigned to verify submission %d" s.submission_id) bad_request)
double_action uid unassign_verification s =
    refuse_if (not (uid_in uid s.assigned_verification_user_ids))
      (perr (about "you are not assigned to verify submission %d" s.submission_id) bad_request)
double_action uid approve s =
    refuse_if (uid_in uid s.approved_user_ids)
      (perr (about "you have already approved submission %d" s.submission_id) bad_request)
double_action uid verify s =
    refuse_if (uid_in uid s.verified_user_ids)
      (perr (about "you have already verified submission %d" s.submission_id) bad_request)
double_action uid mark_added s = refuse_if (marked_added s) (
    perr
      (about "submission %d is alrady marked as added so it cannot be marked again" s.submission_id)
      bad_request)
double_action uid _ s = none

-- One user takes one type of assignment at a time.
double_assignment : ℕ → Action → ExtendedSubmission → Option Error
double_assignment uid assign_testing s = refuse_if (uid_in uid s.assigned_verification_user_ids) (
    perr
      (about
        "you are already assigned to verify submission %d so you cannot assign it for verification"
        s.submission_id)
      bad_request)
double_assignment uid assign_verification s = refuse_if (uid_in uid s.assigned_testing_user_ids) (
    perr
      (about "you are already assigned to test submission %d so you cannot assign it for testing"
        s.submission_id)
      bad_request)
double_assignment uid _ s = none

-- One user does not both approve and verify.
both_verdicts : ℕ → Action → ExtendedSubmission → Option Error
both_verdicts uid assign_testing s = refuse_if (uid_in uid s.verified_user_ids) (
    perr
      (about "you have already verified submission %d so you cannot assign it for testing"
        s.submission_id)
      bad_request)
both_verdicts uid approve s = refuse_if (uid_in uid s.verified_user_ids) (
    perr (about "you have already verified submission %d so you cannot approve it" s.submission_id)
      bad_request)
both_verdicts uid assign_verification s = refuse_if (uid_in uid s.approved_user_ids) (
    perr
      (about
        "you have already approved (tested) submission %d so you cannot assign it for verification"
        s.submission_id)
      bad_request)
both_verdicts uid verify s = refuse_if (uid_in uid s.approved_user_ids) (
    perr
      (about "you have already approved (tested) submission %d so you cannot verify it"
        s.submission_id)
      bad_request)
both_verdicts uid _ s = none

-- No verdict without an assignment.
unassigned_verdict : ℕ → Action → ExtendedSubmission → Option Error
unassigned_verdict uid approve s = refuse_if (not (uid_in uid s.assigned_testing_user_ids)) (
    perr
      (about "you are not assigned to test submission %d so you cannot approve it" s.submission_id)
      bad_request)
unassigned_verdict uid verify s = refuse_if (not (uid_in uid s.assigned_verification_user_ids)) (
    perr
      (about "you are not assigned to verify submission %d so you cannot verify it" s.submission_id)
      bad_request)
unassigned_verdict uid _ s = none

-- No verification before an approval.
verify_before_approve : Action → ExtendedSubmission → Option Error
verify_before_approve assign_verification s = refuse_if (length s.approved_user_ids == 0) (
    perr
      (about "submission %d is not approved (tested) so you cannot assign it for verification"
        s.submission_id)
      bad_request)
verify_before_approve verify s = refuse_if (length s.approved_user_ids == 0) (
    perr (about "submission %d is not approved (tested) so you cannot verify it" s.submission_id)
      bad_request)
verify_before_approve _ s = none

-- Nobody assigns what they have confirmed to be good.
assign_after_verdict : ℕ → Action → ExtendedSubmission → Option Error
assign_after_verdict uid assign_testing s = refuse_if (uid_in uid s.approved_user_ids) (
    perr
      (about "you have already approved submission %d so you cannot assign it for testing"
        s.submission_id)
      bad_request)
assign_after_verdict uid assign_verification s = refuse_if (uid_in uid s.verified_user_ids) (
    perr
      (about "you have already verified submission %d so you cannot assign it for verification"
        s.submission_id)
      bad_request)
assign_after_verdict uid _ s = none

-- Nothing unverified is marked as added; nothing rejected is rejected again or uploaded to.
closing_action : Action → ExtendedSubmission → Option Error
closing_action mark_added s = refuse_if (length s.verified_user_ids == 0) (
    perr (about "submission %d is not verified so you cannot mark it as added" s.submission_id)
      bad_request)
closing_action reject s = refuse_if (is_rejected s) (
    perr (about "submission %d is alrady rejected so you cannot reject it" s.submission_id)
      bad_request)
closing_action upload s = refuse_if (is_rejected s) (
    perr
      (about "submission %d is alrady rejected so you cannot upload a new version" s.submission_id)
      bad_request)
closing_action _ s = none

unfoldable pub is_action_valid_for_submission : ℕ → Action → ExtendedSubmission → Option Error
unfolding review_closed own_upload double_action double_assignment both_verdicts unassigned_verdict
    verify_before_approve assign_after_verdict closing_action
is_action_valid_for_submission uid a s =
    review_closed a s
    or_else own_upload uid a s
    or_else double_action uid a s
    or_else double_assignment uid a s
    or_else both_verdicts uid a s
    or_else unassigned_verdict uid a s
    or_else verify_before_approve a s
    or_else assign_after_verdict uid a s
    or_else closing_action a s
