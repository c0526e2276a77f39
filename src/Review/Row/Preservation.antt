-- ===== src/Review/Row/Preservation.antt =====
-- The invariant along review actions that the validator lets through, and along new versions.
use flashpoint_submission_sy.Prelude.{
  ℕ, ◌<◌, ◌≡◌, ◌≢◌, refl, Bool, true, false, Option, none, some, [], arith, inl, inr, String, ◌⊎◌,
  ==_iff,
}
use flashpoint_submission_sy.Constants.Actions.{
  Action, approve, verify, assign_testing, assign_verification, upload,
}
use flashpoint_submission_sy.Review.Submission.{ExtendedSubmission}
use flashpoint_submission_sy.Review.Validator.{is_action_valid_for_submission}
use flashpoint_submission_sy.Review.Validator.Admission.{
  Admissible, is_action_valid_for_submission_iff,
}
use flashpoint_submission_sy.Review.Tables.{Comment, SubmissionFile, newest_file, newest_comment}
use flashpoint_submission_sy.Review.Cache.{
  is_enabled, ranked_comment, of_last_version, prevails, get_distinct_actions,
  update_submission_cache_table,
}
use flashpoint_submission_sy.Review.Standing.{Standing, standing}
use flashpoint_submission_sy.Review.Row.{
  Submission, Stamps, scan_row, store_comment, refresh_cache, reviewed, unassign, autofreeze,
  freeze, BotComment, uploaded, store_submission_file, update_autofreeze,
}
use flashpoint_submission_sy.Review.Row.Refinement.{
  holds, Ready, InOrder, after_review, speak, reviewed-holds, IsNewVersion, uploaded-holds,
  newest_file-cons,
}
use flashpoint_submission_sy.Review.Row.Invariant.{
  has_rejection, Exclusive, has_verdict, Sound, Reflects, scan_row-Reflects,
}

-- What an admitted action needs of its author's standing.
abbrev May : Action → Standing → Type 0
May assign_testing s = (s.verification ≡ false) × (has_verdict s ≡ false)
May assign_verification s = (s.testing ≡ false) × (has_verdict s ≡ false)
May approve s = (has_verdict s ≡ false) × (s.testing ≡ true)
May verify s = (has_verdict s ≡ false) × (s.verification ≡ true)
May _ s = Unit

-- An admitted action leaves each user with one thing at most.
after_review-Exclusive :
    (uid : ℕ) (a : Action) (u : ℕ) (s : Standing)
    → Exclusive s
    → (uid ≡ u → May a s)
    → Exclusive (after_review uid a u s)
after_review-Exclusive uid approve u s h may = ground (arith, may, ==_iff uid u)
after_review-Exclusive uid _ u s h may = ground (arith, may, ==_iff uid u)

-- Only a verdict of a user gives that user one.
after_review-has_verdict :
    (uid : ℕ) (a : Action) (u : ℕ) (s : Standing)
    → has_verdict s ≡ false
    → (uid ≡ u → (a ≢ approve) × (a ≢ verify))
    → has_verdict (after_review uid a u s) ≡ false
after_review-has_verdict uid approve u s h other = ground (arith, other, ==_iff uid u)
after_review-has_verdict uid _ u s h other = ground (arith, other, ==_iff uid u)

module _ (r : Submission) (s : ExtendedSubmission) (reads : Reflects s r) (uid : ℕ) where
  Admissible-May : (a : Action) → Admissible uid a s → May a (holds r uid)
  Admissible-May approve h =
      ground
        (arith, reads.approved uid, reads.verified uid, reads.testing uid, reads.verification uid)
  Admissible-May _ h =
      ground
        (arith, reads.approved uid, reads.verified uid, reads.testing uid, reads.verification uid)

  no_own_verdict :
      (a : Action) (f : SubmissionFile)
      → Admissible uid a s
      → newest_file r.files ≡ some f
      → uid ≡ f.submitter_id
      → (a ≢ approve) × (a ≢ verify)
  no_own_verdict approve f h newest e = ground (arith, reads.last_uploader f newest)
  no_own_verdict _ f h newest e = ground (arith, reads.last_uploader f newest)

-- Comments are only added, so a rejection stays.
store_comment-has_rejection :
    (c : Comment) (r : Submission)
    → has_rejection (store_comment c r) ≡ false
    → has_rejection r ≡ false
unfolding has_rejection store_comment get_distinct_actions
store_comment-has_rejection c r h = ground arith

reviewed-has_rejection :
    (uid : ℕ) (a : Action) (message : Option String) (should : Bool) (st : Stamps) (r : Submission)
    → has_rejection (reviewed uid a message should st r) ≡ false
    → has_rejection r ≡ false
unfolding has_rejection reviewed refresh_cache autofreeze freeze unassign store_comment
    get_distinct_actions
reviewed-has_rejection uid approve message should st r h = ground arith
reviewed-has_rejection uid _ message should st r h = ground arith

reviewed-files :
    (uid : ℕ) (a : Action) (message : Option String) (should : Bool) (st : Stamps) (r : Submission)
    → (reviewed uid a message should st r).files ≡ r.files
unfolding reviewed refresh_cache autofreeze freeze unassign store_comment
reviewed-files uid approve message should st r = ground arith
reviewed-files uid _ message should st r = ground arith

reviewed-cached :
    (uid : ℕ) (a : Action) (message : Option String) (should : Bool) (st : Stamps) (r : Submission)
    → let r' = reviewed uid a message should st r in
      r'.cache ≡ update_submission_cache_table r'.files r'.comments
unfolding reviewed refresh_cache
reviewed-cached uid a message should st r = refl

-- If a row has the invariant, the search reads it, the validator lets the action through on what the
-- search read, and the comments get times that ascend and are later than all that is stored, then
-- the row that the action leaves has the invariant.
pub reviewed-Sound :
    (uid : ℕ) (a : Action) (message : Option String) (st : Stamps) (r : Submission)
    (s : ExtendedSubmission)
    → Sound r
    → scan_row r ≡ some s
    → is_action_valid_for_submission uid a s ≡ none
    → Ready r st.at0
    → InOrder st
    → Sound (reviewed uid a message s.should_autofreeze st r)
reviewed-Sound uid a message st r s sound scan valid ready order =
    let should : Bool = s.should_autofreeze in
    let admitted = (is_action_valid_for_submission_iff uid a s).0 valid in
    let clean = reviewed-has_rejection uid a message should st r in
    let same = reviewed-files uid a message should st r in
    let reads = λ (h : has_rejection r ≡ false). scan_row-Reflects r s sound.cached h scan in
    record {
      cached = reviewed-cached uid a message should st r;
      has_file = λ e. sound.has_file (rw same at e);
      exclusive = λ h u. rw (reviewed-holds uid a message should st r u ready order) (
          after_review-Exclusive uid a u (holds r u) (sound.exclusive (clean h) u)
            (λ e. rw (← e) (Admissible-May r s (reads (clean h)) uid a admitted)));
      impartial = λ h f newest.
          let old : newest_file r.files ≡ some f = rw same at newest in
          rw (reviewed-holds uid a message should st r f.submitter_id ready order) (
            after_review-has_verdict uid a f.submitter_id (holds r f.submitter_id)
              (sound.impartial (clean h) f old)
              (λ e. no_own_verdict r s (reads (clean h)) uid a f admitted old e));
    }

-- A row before its first version.
abbrev pub IsBlank : Submission → Type 0
IsBlank r = (r.files ≡ []) × (r.comments ≡ [])

blank-Exclusive : (r : Submission) (u : ℕ) → IsBlank r → Exclusive (holds r u)
unfolding standing is_enabled ranked_comment newest_comment of_last_version prevails newest_file
blank-Exclusive r u h =
    rw (h.0, h.1)
      (record {
        assignments = refl;
        verdicts = refl;
        testing_open = refl;
        verification_open = refl;
        satisfied = refl;
      })

upload-Exclusive :
    (uid u : ℕ) (s : Standing)
    → Exclusive s
    → Exclusive (speak uid upload u (record s { approved = false; verified = false }))
upload-Exclusive uid u s h = ground arith

upload-has_verdict :
    (uid u : ℕ) (s : Standing)
    → has_verdict (speak uid upload u (record s { approved = false; verified = false })) ≡ false
upload-has_verdict uid u s = ground arith

uploaded-has_rejection :
    (f : SubmissionFile) (cid t : ℕ) (bot : BotComment) (r : Submission)
    → has_rejection (uploaded f cid t bot r) ≡ false
    → has_rejection r ≡ false
unfolding has_rejection uploaded refresh_cache update_autofreeze store_comment store_submission_file
    get_distinct_actions
uploaded-has_rejection f cid t bot r h = ground arith

uploaded-files :
    (f : SubmissionFile) (cid t : ℕ) (bot : BotComment) (r : Submission)
    → IsNewVersion f r
    → newest_file (uploaded f cid t bot r).files ≡ some f
unfolding uploaded refresh_cache update_autofreeze store_comment store_submission_file
uploaded-files f cid t bot r h = newest_file-cons f r h

uploaded-cached :
    (f : SubmissionFile) (cid t : ℕ) (bot : BotComment) (r : Submission)
    → let r' = uploaded f cid t bot r in
      r'.cache ≡ update_submission_cache_table r'.files r'.comments
unfolding uploaded refresh_cache update_autofreeze
uploaded-cached f cid t bot r = refl

-- An active new version, with the comments of the upload and of the validator at times that ascend and
-- are later than all that is stored, keeps the invariant, and establishes it on a row without files
-- and comments.
pub uploaded-Sound :
    (f : SubmissionFile) (cid t : ℕ) (bot : BotComment) (r : Submission)
    → IsBlank r ⊎ Sound r
    → IsNewVersion f r
    → f.created_at < t
    → t < bot.at
    → Sound (uploaded f cid t bot r)
uploaded-Sound f cid t bot r before version first second =
    let held = uploaded-holds f cid t bot r in
    let kept : (u : ℕ) → has_rejection r ≡ false → Exclusive (holds r u) = λ u h. elim before [
      | inl blank ↦ blank-Exclusive r u blank
      | inr sound ↦ sound.exclusive h u
    ] in
    record {
      cached = uploaded-cached f cid t bot r;
      has_file = λ e. cc (uploaded-files f cid t bot r version);
      exclusive = λ h u. rw (held u version first second) (
          upload-Exclusive f.submitter_id u (holds r u)
            (kept u (uploaded-has_rejection f cid t bot r h)));
      impartial = λ h g newest.
          rw (held g.submitter_id version first second)
            (upload-has_verdict f.submitter_id g.submitter_id (holds r g.submitter_id));
    }
