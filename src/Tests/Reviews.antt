-- ===== src/Tests/Reviews.antt =====
-- The theorems on the review of a submission, at the sample.
use flashpoint_submission_sy.Review.Bot.{
  bot_comment, bot_comment_iff, remaining_warnings, remaining_warnings-append,
}
use flashpoint_submission_sy.Review.Standing.{standing, speaks_for, act, standing-cons}
use flashpoint_submission_sy.Review.Cache.{
  is_enabled, is_counted, approved_query, get_user_count_with_enabled_action, get_distinct_actions,
}
use flashpoint_submission_sy.Review.Cache.Replay.{replay_comment, is_enabled-cons}
use flashpoint_submission_sy.Review.Cache.Meaning.{Enables, get_user_count_with_enabled_action_iff}
use flashpoint_submission_sy.Review.Cache.Latest.{Precedes}
use flashpoint_submission_sy.Review.Row.Invariant.{
  Sound, Reflects, has_rejection, scan_row-Reflects,
}
use flashpoint_submission_sy.Review.Row.Preservation.{reviewed-Sound, uploaded-Sound}
use flashpoint_submission_sy.Prelude.{
  ◌≡◌, ◌↔◌, refl, false, ◌&&◌, ◌||◌, none, [], ◌∷◌, arith, inl, inr, if◌then◌else◌, String, length,
  ◌++◌, ◌≤◌, Bool, true, List, Exists,
}
use flashpoint_submission_sy.Constants.Actions.{assign_testing, approve, upload}
use flashpoint_submission_sy.Review.Submission.{uid_in}
use flashpoint_submission_sy.Review.Tables.{Comment, newest_file}
use flashpoint_submission_sy.Review.Validator.{is_action_valid_for_submission, marked_added}
use flashpoint_submission_sy.Review.Validator.Admission.{
  Admissible, is_action_valid_for_submission_iff,
}
use flashpoint_submission_sy.Review.Row.{
  reviewed, uploaded, refresh_cache, store_comment, store_submission_file, unassign, autofreeze,
  new_comment, update_autofreeze,
}
use flashpoint_submission_sy.Review.Row.Refinement.{
  Ready, InOrder, IsNewVersion, holds, speak, after_review, reviewed-holds, uploaded-holds,
}
use flashpoint_submission_sy.Review.Row.History.{
  Reached, Reached-one_role, Reached-impartial, created, step, review,
}
use flashpoint_submission_sy.Tests.Rows.{
  author, tester, first_file, second_file, first_bot, second_bot, blank_row, assign_stamps,
  approve_stamps, uploaded_row, assigned_row, approved_row, uploaded_scan, assigned_scan,
  approved_scan, uploaded_row_scan, assigned_row_scan, approved_row_scan,
}

first_IsNewVersion : IsNewVersion first_file blank_row
unfolding newest_file
first_IsNewVersion = record { active = refl; after_comments = tt; after_file = λ f e. cc }

uploaded_row-Ready : Ready uploaded_row 200
unfolding newest_file update_autofreeze uploaded refresh_cache store_comment store_submission_file
uploaded_row-Ready = record {
  comments_before = ground arith;
  file_before = λ f e. ground arith;
  has_file = λ e. cc;
}

assigned_row-Ready : Ready assigned_row 210
unfolding newest_file update_autofreeze uploaded reviewed unassign autofreeze refresh_cache
    store_comment store_submission_file
assigned_row-Ready = record {
  comments_before = ground arith;
  file_before = λ f e. ground arith;
  has_file = λ e. cc;
}

assign_IsValid : is_action_valid_for_submission tester assign_testing uploaded_scan ≡ none
unfolding is_action_valid_for_submission marked_added uid_in
assign_IsValid = refl

approve_IsValid : is_action_valid_for_submission tester approve assigned_scan ≡ none
unfolding is_action_valid_for_submission marked_added uid_in
approve_IsValid = refl

uploaded_row-Reached : Reached uploaded_row
uploaded_row-Reached =
    created first_file 1 101 first_bot blank_row (refl, refl) first_IsNewVersion (omega arith)
      (omega arith)

assign_InOrder : InOrder assign_stamps
assign_InOrder = record { first = omega arith; second = omega arith }

approve_InOrder : InOrder approve_stamps
approve_InOrder = record { first = omega arith; second = omega arith }

approved_row-Reached : Reached approved_row
approved_row-Reached =
    step
      (step uploaded_row-Reached (
        review tester assign_testing none assign_stamps uploaded_scan uploaded_row_scan
          assign_IsValid uploaded_row-Ready assign_InOrder))
      (review tester approve none approve_stamps assigned_scan assigned_row_scan approve_IsValid
        assigned_row-Ready approve_InOrder)

uploaded_row-Sound : Sound uploaded_row
uploaded_row-Sound =
    uploaded-Sound first_file 1 101 first_bot blank_row (inl (refl, refl)) first_IsNewVersion
      (omega arith) (omega arith)

pub assigned_row-Sound : Sound assigned_row
assigned_row-Sound =
    reviewed-Sound tester assign_testing none assign_stamps uploaded_row uploaded_scan
      uploaded_row-Sound uploaded_row_scan assign_IsValid uploaded_row-Ready assign_InOrder

approved_row-Sound : Sound approved_row
approved_row-Sound =
    reviewed-Sound tester approve none approve_stamps assigned_row assigned_scan assigned_row-Sound
      assigned_row_scan approve_IsValid assigned_row-Ready approve_InOrder

approved_row-Precedes : Precedes approved_row.comments 300
unfolding update_autofreeze uploaded reviewed unassign autofreeze refresh_cache store_comment
    store_submission_file
approved_row-Precedes = ground arith

second_IsNewVersion : IsNewVersion second_file approved_row
unfolding newest_file update_autofreeze uploaded reviewed unassign autofreeze refresh_cache
    store_comment store_submission_file
second_IsNewVersion = record {
  active = refl;
  after_comments = approved_row-Precedes;
  after_file = λ f e. ground arith;
}

approved_row_clean : has_rejection approved_row ≡ false
unfolding has_rejection get_distinct_actions update_autofreeze uploaded reviewed unassign autofreeze
    refresh_cache store_comment store_submission_file
approved_row_clean = refl

Reached-one_role_example :
    ((uid_in tester approved_scan.assigned_testing_user_ids
        && uid_in tester approved_scan.assigned_verification_user_ids)
      ≡ false)
    × ((uid_in tester approved_scan.approved_user_ids
          && uid_in tester approved_scan.verified_user_ids)
        ≡ false)
    × ((uid_in tester approved_scan.assigned_testing_user_ids
          && (uid_in tester approved_scan.approved_user_ids
              || uid_in tester approved_scan.verified_user_ids))
        ≡ false)
    × ((uid_in tester approved_scan.assigned_verification_user_ids
          && (uid_in tester approved_scan.approved_user_ids
              || uid_in tester approved_scan.verified_user_ids))
        ≡ false)
Reached-one_role_example =
    Reached-one_role approved_row approved_scan tester approved_row-Reached approved_row_scan

Reached-impartial_example :
    (uid_in approved_scan.last_uploader_id approved_scan.approved_user_ids
      || uid_in approved_scan.last_uploader_id approved_scan.verified_user_ids)
    ≡ false
Reached-impartial_example =
    Reached-impartial approved_row approved_scan approved_row-Reached approved_row_scan

reviewed-Sound_example : Sound approved_row
reviewed-Sound_example =
    reviewed-Sound tester approve none approve_stamps assigned_row assigned_scan assigned_row-Sound
      assigned_row_scan approve_IsValid assigned_row-Ready approve_InOrder

uploaded-Sound_example : Sound (uploaded second_file 6 301 second_bot approved_row)
uploaded-Sound_example =
    uploaded-Sound second_file 6 301 second_bot approved_row (inr approved_row-Sound)
      second_IsNewVersion (omega arith) (omega arith)

reviewed-holds_example :
    holds approved_row tester ≡ after_review tester approve tester (holds assigned_row tester)
reviewed-holds_example =
    reviewed-holds tester approve none false approve_stamps assigned_row tester assigned_row-Ready
      approve_InOrder

uploaded-holds_example :
    holds (uploaded second_file 6 301 second_bot approved_row) tester
    ≡ speak author upload tester
        (record (holds approved_row tester) { approved = false; verified = false })
uploaded-holds_example =
    uploaded-holds second_file 6 301 second_bot approved_row tester second_IsNewVersion
      (omega arith) (omega arith)

is_action_valid_for_submission_iff_example :
    (is_action_valid_for_submission tester approve assigned_scan ≡ none)
    ↔ Admissible tester approve assigned_scan
is_action_valid_for_submission_iff_example =
    is_action_valid_for_submission_iff tester approve assigned_scan

-- The approval, as it is stored.
abbrev approval : Comment
approval = new_comment 4 tester approve none 210

standing-cons_example : standing assigned_row.files (approval ∷ assigned_row.comments) tester ≡ (
    if speaks_for approval tester
    then act approve (standing assigned_row.files assigned_row.comments tester)
    else standing assigned_row.files assigned_row.comments tester)
standing-cons_example =
    standing-cons assigned_row.files approval assigned_row.comments tester
      assigned_row-Ready.comments_before assigned_row-Ready.file_before assigned_row-Ready.has_file

is_enabled-cons_example :
    is_enabled approved_query assigned_row.files (approval ∷ assigned_row.comments) tester
    ≡ replay_comment approved_query approval tester
        (is_enabled approved_query assigned_row.files assigned_row.comments tester)
unfolding is_counted
is_enabled-cons_example =
    is_enabled-cons approved_query assigned_row.files approval assigned_row.comments tester
      assigned_row-Ready.comments_before assigned_row-Ready.file_before
      (λ e. absurd (assigned_row-Ready.has_file e)) refl

get_user_count_with_enabled_action_iff_example :
    (uid_in tester
        (get_user_count_with_enabled_action approved_query approved_row.files approved_row.comments)
      ≡ true)
    ↔ Exists
        (Enables approved_query (newest_file approved_row.files) approved_row.comments tester)
        approved_row.comments
get_user_count_with_enabled_action_iff_example =
    get_user_count_with_enabled_action_iff approved_query approved_row.files approved_row.comments
      tester

scan_row-Reflects_example : Reflects approved_scan approved_row
scan_row-Reflects_example =
    scan_row-Reflects approved_row approved_scan approved_row-Sound.cached approved_row_clean
      approved_row_scan

-- No warning asks for a freeze.
abbrev no_freeze : String → Bool
no_freeze w = false

abbrev no_errors : List String
no_errors = []

abbrev one_warning : List String
one_warning = "bad title" ∷ []

bot_comment_iff_example :
    ((bot_comment no_freeze no_errors one_warning).action ≡ approve)
    ↔ ((no_errors ≡ []) × (length one_warning ≤ 1))
bot_comment_iff_example = bot_comment_iff no_freeze no_errors one_warning

-- Every warning asks for a freeze.
abbrev all_freeze : String → Bool
all_freeze w = true

remaining_warnings-append_example :
    remaining_warnings all_freeze ([] ++ "Curation should be frozen" ∷ "bad title" ∷ [])
    ≡ [] ++ "bad title" ∷ []
remaining_warnings-append_example =
    remaining_warnings-append all_freeze [] "Curation should be frozen" ("bad title" ∷ []) refl refl
