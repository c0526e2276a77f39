-- ===== src/Review/Row/Invariant.antt =====
-- What holds of a submission between two actions of its review.
use flashpoint_submission_sy.Prelude.{ℕ, ◌≡◌, ◌≢◌, Bool, false, ◌&&◌, ◌||◌, none, some, arith}
use flashpoint_submission_sy.Constants.Actions.{reject, action_in}
use flashpoint_submission_sy.Review.Submission.{ExtendedSubmission, uid_in}
use flashpoint_submission_sy.Review.Tables.{SubmissionFile, newest_file}
use flashpoint_submission_sy.Review.Cache.{
  Query, get_distinct_actions, update_submission_cache_table, assigned_testing_query,
  assigned_verification_query, requested_changes_query, approved_query, verified_query,
}
use flashpoint_submission_sy.Review.Cache.Replay.{uid_in-get_user_count_with_enabled_action}
use flashpoint_submission_sy.Review.Standing.{Standing, standing}
use flashpoint_submission_sy.Review.Row.{Submission, scan_row}
use flashpoint_submission_sy.Review.Row.Refinement.{holds}

-- Has the submission an active comment that rejects it?
unfoldable pub has_rejection : Submission → Bool
has_rejection r = action_in reject (get_distinct_actions r.comments)

-- A user holds at most one of an assignment to test, one to verify, an approval and a verification,
-- and nobody who has approved or verified is waiting for changes.
pub record Exclusive (s : Standing) : Type 0 where
  pub assignments : (s.testing && s.verification) ≡ false
  pub verdicts : (s.approved && s.verified) ≡ false
  pub testing_open : (s.testing && (s.approved || s.verified)) ≡ false
  pub verification_open : (s.verification && (s.approved || s.verified)) ≡ false
  pub satisfied : (s.requested && (s.approved || s.verified)) ≡ false

abbrev pub has_verdict : Standing → Bool
has_verdict s = s.approved || s.verified

pub record Sound (r : Submission) : Type 0 where
  pub cached : r.cache ≡ update_submission_cache_table r.files r.comments
  pub has_file : newest_file r.files ≢ none
  pub exclusive : has_rejection r ≡ false → (u : ℕ) → Exclusive (holds r u)
  pub impartial :
      has_rejection r ≡ false
      → (f : SubmissionFile) → newest_file r.files ≡ some f
      → has_verdict (holds r f.submitter_id) ≡ false

-- A search result of a sound row without a rejection, read as what each user holds.
pub record Reflects (s : ExtendedSubmission) (r : Submission) : Type 0 where
  pub testing : (u : ℕ) → uid_in u s.assigned_testing_user_ids ≡ (holds r u).testing
  pub verification : (u : ℕ) → uid_in u s.assigned_verification_user_ids ≡ (holds r u).verification
  pub requested : (u : ℕ) → uid_in u s.requested_changes_user_ids ≡ (holds r u).requested
  pub approved : (u : ℕ) → uid_in u s.approved_user_ids ≡ (holds r u).approved
  pub verified : (u : ℕ) → uid_in u s.verified_user_ids ≡ (holds r u).verified
  pub last_uploader :
      (f : SubmissionFile) → newest_file r.files ≡ some f → s.last_uploader_id ≡ f.submitter_id

-- The fields of a search result are the columns of the cache.
record IsScan (s : ExtendedSubmission) (r : Submission) : Type 0 where
  testing : s.assigned_testing_user_ids ≡ r.cache.active_assigned_testing_ids
  verification : s.assigned_verification_user_ids ≡ r.cache.active_assigned_verification_ids
  requested : s.requested_changes_user_ids ≡ r.cache.active_requested_changes_ids
  approved : s.approved_user_ids ≡ r.cache.active_approved_ids
  verified : s.verified_user_ids ≡ r.cache.active_verified_ids
  distinct : s.distinct_actions ≡ r.cache.distinct_actions
  newest : (f : SubmissionFile) → r.cache.newest_file ≡ some f → s.last_uploader_id ≡ f.submitter_id

scan_row-IsScan : (r : Submission) (s : ExtendedSubmission) → scan_row r ≡ some s → IsScan s r
unfolding scan_row
scan_row-IsScan r s e = ground arith

-- If the cache of a row is up to date, no active comment rejects the submission and the search reads
-- the row, then each list of the result says of each user what the user holds, and the last uploader
-- is the submitter of the newest file.
pub scan_row-Reflects :
    (r : Submission) (s : ExtendedSubmission)
    → r.cache ≡ update_submission_cache_table r.files r.comments
    → has_rejection r ≡ false
    → scan_row r ≡ some s
    → Reflects s r
unfolding has_rejection update_submission_cache_table standing
scan_row-Reflects r s cached clean e =
    let scan = scan_row-IsScan r s e in
    let count =
      λ (q : Query). λ (u : ℕ). uid_in-get_user_count_with_enabled_action q r.files r.comments u in
    record {
      testing = λ u. rw (scan.testing, cached, clean) (count assigned_testing_query u);
      verification =
          λ u. rw (scan.verification, cached, clean) (count assigned_verification_query u);
      requested = λ u. rw (scan.requested, cached, clean) (count requested_changes_query u);
      approved = λ u. rw (scan.approved, cached, clean) (count approved_query u);
      verified = λ u. rw (scan.verified, cached, clean) (count verified_query u);
      last_uploader = λ f h. scan.newest f (rw cached h);
    }
