-- ===== src/Review/Row.antt =====
-- One row of `submission` with the rows that belong to it, and what the writers of the review do to
-- them: `StoreComment` and `StoreSubmissionFile` (database/mysqldal.go), each followed by
-- `UpdateSubmissionCacheTable`, and the row as the search reads it (database/searchmonster.go).
pub mod Refinement
pub mod Invariant
pub mod Preservation
pub mod History
use flashpoint_submission_sy.Prelude.{
  ℕ, String, Bool, true, false, ◌&&◌, Option, none, some, List, [], ◌∷◌, ◌+◌, if◌then◌else◌,
}
use flashpoint_submission_sy.Constants.Actions.{
  Action, approve, request_changes, verify, unassign_testing, unassign_verification, system, upload,
  same_action,
}
use flashpoint_submission_sy.Review.Submission.{ExtendedSubmission}
use flashpoint_submission_sy.Review.Tables.{Comment, SubmissionFile, newest_file, oldest_file}
use flashpoint_submission_sy.Review.Cache.{
  SubmissionCache, validator_id, update_submission_cache_table,
}

pub record Submission : Type 0 where
  pub id : ℕ
  pub deleted : Bool
  pub is_frozen : Bool
  pub should_autofreeze : Bool
  pub files : List SubmissionFile
  pub comments : List Comment
  pub cache : SubmissionCache

-- A NULL in a column that is scanned into a plain value is a scan error: no active file, or no
-- comment of the validator.
unfoldable pub scan_columns :
    Option SubmissionFile
    → Option SubmissionFile
    → Option Action
    → Submission
    → Option ExtendedSubmission
scan_columns (some newest) (some oldest) (some bot) r = some (record {
  submission_id = r.id;
  submitter_id = oldest.submitter_id;
  last_uploader_id = newest.submitter_id;
  assigned_testing_user_ids = r.cache.active_assigned_testing_ids;
  assigned_verification_user_ids = r.cache.active_assigned_verification_ids;
  requested_changes_user_ids = r.cache.active_requested_changes_ids;
  approved_user_ids = r.cache.active_approved_ids;
  verified_user_ids = r.cache.active_verified_ids;
  distinct_actions = r.cache.distinct_actions;
  is_frozen = r.is_frozen;
  should_autofreeze = r.should_autofreeze;
})
scan_columns _ _ _ r = none

-- The row as the search returns it.
unfoldable pub scan_row : Submission → Option ExtendedSubmission
unfolding scan_columns
scan_row r = scan_columns r.cache.newest_file r.cache.oldest_file r.cache.bot_action r

-- `StoreComment`
unfoldable pub store_comment : Comment → Submission → Submission
store_comment c r = record r { comments = c ∷ r.comments }

-- `StoreSubmissionFile`
unfoldable pub store_submission_file : SubmissionFile → Submission → Submission
store_submission_file f r = record r { files = f ∷ r.files }

-- `UpdateSubmissionCacheTable` on the row of the submission.
unfoldable pub refresh_cache : Submission → Submission
refresh_cache r = record r { cache = update_submission_cache_table r.files r.comments }

-- The DAL's `FreezeSubmission`
unfoldable pub freeze : Submission → Submission
freeze r = record r { is_frozen = true }

-- `constants.SystemID`
abbrev pub system_id : ℕ
system_id = 844246603102945333

-- A comment that is being stored.
abbrev pub new_comment : ℕ → ℕ → Action → Option String → ℕ → Comment
new_comment cid uid a message t = record {
  id = cid;
  author_id = uid;
  message = message;
  action = a;
  created_at = t;
  deleted = false;
}

-- The ids and times that the comments of one review action get, in the order of storing, and the
-- notice of an automatic freeze as it is stored.
pub record Stamps : Type 0 where
  pub id0 : ℕ
  pub id1 : ℕ
  pub id2 : ℕ
  pub at0 : ℕ
  pub at1 : ℕ
  pub at2 : ℕ
  pub notice : Option String

-- `unassign if needed`
unfoldable pub unassign : ℕ → Action → Stamps → Submission → Submission
unassign uid approve st = store_comment (new_comment st.id1 uid unassign_testing none st.at1)
unassign uid verify st = store_comment (new_comment st.id1 uid unassign_verification none st.at1)
unassign uid _ st = λ r. r

-- `freeze the curation if it autofreeze is true`
unfoldable pub autofreeze : Action → Bool → Stamps → Submission → Submission
autofreeze a should st r =
    if same_action a verify && should
    then store_comment (new_comment st.id2 system_id system st.notice st.at2) (freeze r)
    else r

-- All that one accepted action of the batch does to the row of its submission.
unfoldable pub reviewed : ℕ → Action → Option String → Bool → Stamps → Submission → Submission
reviewed uid a message should st r = refresh_cache (
    autofreeze a should st
      (unassign uid a st (store_comment (new_comment st.id0 uid a message st.at0) r)))

-- The validator's comment on a new version (`Review.Bot.bot_comment`), as it is stored, and whether its
-- response asks for a freeze.
pub record BotComment : Type 0 where
  pub id : ℕ
  pub verdict : Action
  pub message : Option String
  pub at : ℕ
  pub autofreeze : Bool

-- The DAL's `UpdateSubmissionAutofreeze`
unfoldable pub update_autofreeze : Bool → Submission → Submission
update_autofreeze b r = record r { should_autofreeze = b }

-- What a committed new version does to the row: the file, the comment of the upload, the column of the
-- automatic freeze, which nothing of the rest reads, and the comment of the validator. The comments
-- of the system about similar submissions and a missing date are left out.
unfoldable pub uploaded : SubmissionFile → ℕ → ℕ → BotComment → Submission → Submission
uploaded f cid t bot r = refresh_cache (
    update_autofreeze bot.autofreeze (
      store_comment (new_comment bot.id validator_id bot.verdict bot.message bot.at)
        (store_comment (new_comment cid f.submitter_id upload none t) (store_submission_file f r))))
