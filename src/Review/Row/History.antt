-- ===== src/Review/Row/History.antt =====
-- The life of a submission as a step relation: review actions that the validator lets through, and
-- new versions. Every row that is reached keeps the invariant. Deletions of comments and files, and
-- the forced verdicts of a god, are no steps of it.
use flashpoint_submission_sy.Prelude.{
  ℕ, ◌<◌, ◌≡◌, true, false, ◌&&◌, ◌||◌, Option, none, some, [], arith, Bool-cases, inl, inr, String,
  Option-cases,
}
use flashpoint_submission_sy.Constants.Actions.{Action}
use flashpoint_submission_sy.Review.Submission.{ExtendedSubmission, uid_in}
use flashpoint_submission_sy.Review.Validator.{is_action_valid_for_submission}
use flashpoint_submission_sy.Review.Tables.{SubmissionFile, newest_file}
use flashpoint_submission_sy.Review.Cache.{update_submission_cache_table}
use flashpoint_submission_sy.Review.Cache.Replay.{uid_in_nil}
use flashpoint_submission_sy.Review.Row.{
  Submission, Stamps, scan_row, reviewed, BotComment, uploaded,
}
use flashpoint_submission_sy.Review.Row.Refinement.{Ready, InOrder, IsNewVersion}
use flashpoint_submission_sy.Review.Row.Invariant.{has_rejection, Sound, scan_row-Reflects}
use flashpoint_submission_sy.Review.Row.Preservation.{IsBlank, reviewed-Sound, uploaded-Sound}

-- One committed change of a submission.
pub data Step (r : Submission) : Submission → Type 0 where
  review :
      (uid : ℕ) (a : Action) (message : Option String) (st : Stamps) (s : ExtendedSubmission)
      → scan_row r ≡ some s
      → is_action_valid_for_submission uid a s ≡ none
      → Ready r st.at0
      → InOrder st
      → Step r (reviewed uid a message s.should_autofreeze st r)
  new_version :
      (f : SubmissionFile) (cid t : ℕ) (bot : BotComment)
      → IsNewVersion f r
      → f.created_at < t
      → t < bot.at
      → Step r (uploaded f cid t bot r)

-- The submissions that come about by a first version and then such changes.
pub data Reached : Submission → Type 0 where
  created :
      (f : SubmissionFile) (cid t : ℕ) (bot : BotComment) (r : Submission)
      → IsBlank r
      → IsNewVersion f r
      → f.created_at < t
      → t < bot.at
      → Reached (uploaded f cid t bot r)
  step : {r r' : Submission} → Reached r → Step r r' → Reached r'

Step-Sound : {r r' : Submission} → Step r r' → Sound r → Sound r'
Step-Sound {r} (review uid a message st s scan valid ready order) h =
    reviewed-Sound uid a message st r s h scan valid ready order
Step-Sound {r} (new_version f cid t bot version first second) h =
    uploaded-Sound f cid t bot r (inr h) version first second

Reached-Sound : {r : Submission} → Reached r → Sound r
Reached-Sound (created f cid t bot r blank version first second) =
    uploaded-Sound f cid t bot r (inl blank) version first second
Reached-Sound (step reached s) = Step-Sound s (Reached-Sound reached)

no_scanned_verdicts :
    (r : Submission) (s : ExtendedSubmission)
    → r.cache ≡ update_submission_cache_table r.files r.comments
    → has_rejection r ≡ true
    → scan_row r ≡ some s
    → (s.assigned_testing_user_ids ≡ [])
      × (s.assigned_verification_user_ids ≡ [])
      × (s.approved_user_ids ≡ [])
      × (s.verified_user_ids ≡ [])
unfolding scan_row has_rejection update_submission_cache_table
no_scanned_verdicts r s cached rejected e = ground arith

-- On a submission reached by review actions that the validator lets through and by new versions, the
-- search, where it can read the row, shows no user in two of the four lists of assigned testers,
-- assigned verifiers, approvers and verifiers.
pub Reached-one_role :
    (r : Submission) (s : ExtendedSubmission) (u : ℕ)
    → Reached r
    → scan_row r ≡ some s
    → ((uid_in u s.assigned_testing_user_ids && uid_in u s.assigned_verification_user_ids) ≡ false)
      × ((uid_in u s.approved_user_ids && uid_in u s.verified_user_ids) ≡ false)
      × ((uid_in u s.assigned_testing_user_ids
            && (uid_in u s.approved_user_ids || uid_in u s.verified_user_ids))
          ≡ false)
      × ((uid_in u s.assigned_verification_user_ids
            && (uid_in u s.approved_user_ids || uid_in u s.verified_user_ids))
          ≡ false)
Reached-one_role r s u reached scan =
    let sound = Reached-Sound reached in
    elim (Bool-cases (has_rejection r)) [
      | inl rejected ↦
          ground (arith, no_scanned_verdicts r s sound.cached rejected scan, uid_in_nil u)
      | inr clean ↦
          let reads = scan_row-Reflects r s sound.cached clean scan in
          ground (
            arith,
            sound.exclusive clean u,
            reads.testing u,
            reads.verification u,
            reads.approved u,
            reads.verified u,
          )
    ]

-- On a submission reached by review actions that the validator lets through and by new versions, the
-- search, where it can read the row, shows the uploader of the newest version neither among the
-- approvers nor among the verifiers.
pub Reached-impartial :
    (r : Submission) (s : ExtendedSubmission)
    → Reached r
    → scan_row r ≡ some s
    → (uid_in s.last_uploader_id s.approved_user_ids
        || uid_in s.last_uploader_id s.verified_user_ids)
      ≡ false
Reached-impartial r s reached scan =
    let sound = Reached-Sound reached in
    elim (Bool-cases (has_rejection r)) [
      | inl rejected ↦
          ground (
            arith,
            no_scanned_verdicts r s sound.cached rejected scan,
            uid_in_nil s.last_uploader_id,
          )
      | inr clean ↦ elim (Option-cases (newest_file r.files)) [
        | inl none_left ↦ absurd (sound.has_file none_left)
        | inr (f, newest) ↦
            let reads = scan_row-Reflects r s sound.cached clean scan in
            ground (
              arith,
              sound.impartial clean f newest,
              reads.last_uploader f newest,
              reads.approved f.submitter_id,
              reads.verified f.submitter_id,
            )
      ]
    ]
