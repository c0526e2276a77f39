-- ===== src/Tests/Rows.antt =====
-- A submission that is uploaded, assigned to a tester and approved.
use flashpoint_submission_sy.Prelude.{ℕ, ◌≡◌, refl, false, none, some, [], ◌∷◌}
use flashpoint_submission_sy.Constants.Actions.{
  assign_testing, approve, upload, unassign_testing, request_changes,
}
use flashpoint_submission_sy.Review.Submission.{ExtendedSubmission, uid_in}
use flashpoint_submission_sy.Review.Tables.{
  SubmissionFile, newest_file, oldest_file, newest_comment,
}
use flashpoint_submission_sy.Review.Cache.{
  update_submission_cache_table, get_bot_action, get_distinct_actions,
  get_user_count_with_enabled_action,
}
use flashpoint_submission_sy.Review.Row.{
  Submission, Stamps, BotComment, scan_row, reviewed, uploaded, refresh_cache, store_comment,
  store_submission_file, unassign, autofreeze, update_autofreeze,
}

abbrev pub author : ℕ
author = 10

abbrev pub tester : ℕ
tester = 20

abbrev pub first_file : SubmissionFile
first_file = record {
  id = 1;
  submitter_id = author;
  original_filename = "game.7z";
  current_filename = "abc.7z";
  md5sum = "d41d";
  sha256sum = "e3b0";
  created_at = 100;
  deleted = false;
}

abbrev pub second_file : SubmissionFile
second_file = record first_file { id = 2; created_at = 300 }

abbrev pub first_bot : BotComment
first_bot = record {
  id = 2;
  verdict = approve;
  autofreeze = false;
  message = some "Looks good to me!";
  at = 102;
}

abbrev pub second_bot : BotComment
second_bot = record first_bot { id = 7; verdict = request_changes; at = 302 }

abbrev pub blank_row : Submission
blank_row = record {
  id = 7;
  deleted = false;
  is_frozen = false;
  should_autofreeze = false;
  files = [];
  comments = [];
  cache = update_submission_cache_table [] [];
}

abbrev pub assign_stamps : Stamps
assign_stamps = record { id0 = 3; id1 = 4; id2 = 5; at0 = 200; at1 = 201; at2 = 202; notice = none }

abbrev pub approve_stamps : Stamps
approve_stamps = record {
  id0 = 4;
  id1 = 5;
  id2 = 6;
  at0 = 210;
  at1 = 211;
  at2 = 212;
  notice = none;
}

abbrev pub uploaded_row : Submission
uploaded_row = uploaded first_file 1 101 first_bot blank_row

abbrev pub assigned_row : Submission
assigned_row = reviewed tester assign_testing none false assign_stamps uploaded_row

abbrev pub approved_row : Submission
approved_row = reviewed tester approve none false approve_stamps assigned_row

abbrev pub uploaded_scan : ExtendedSubmission
uploaded_scan = record {
  submission_id = 7;
  submitter_id = author;
  last_uploader_id = author;
  assigned_testing_user_ids = [];
  assigned_verification_user_ids = [];
  requested_changes_user_ids = [];
  approved_user_ids = [];
  verified_user_ids = [];
  distinct_actions = approve ∷ upload ∷ [];
  is_frozen = false;
  should_autofreeze = false;
}

abbrev pub assigned_scan : ExtendedSubmission
assigned_scan = record uploaded_scan {
  assigned_testing_user_ids = tester ∷ [];
  distinct_actions = assign_testing ∷ approve ∷ upload ∷ [];
}

abbrev pub approved_scan : ExtendedSubmission
approved_scan = record uploaded_scan {
  approved_user_ids = tester ∷ [];
  distinct_actions = unassign_testing ∷ assign_testing ∷ approve ∷ upload ∷ [];
}

-- The sample rows, as the search reads them.
pub uploaded_row_scan : scan_row uploaded_row ≡ some uploaded_scan
unfolding scan_row update_autofreeze uploaded reviewed unassign autofreeze refresh_cache
    store_comment store_submission_file update_submission_cache_table newest_file oldest_file
    get_bot_action newest_comment get_distinct_actions get_user_count_with_enabled_action uid_in
uploaded_row_scan = refl

pub assigned_row_scan : scan_row assigned_row ≡ some assigned_scan
unfolding scan_row update_autofreeze uploaded reviewed unassign autofreeze refresh_cache
    store_comment store_submission_file update_submission_cache_table newest_file oldest_file
    get_bot_action newest_comment get_distinct_actions get_user_count_with_enabled_action uid_in
assigned_row_scan = refl

pub approved_row_scan : scan_row approved_row ≡ some approved_scan
unfolding scan_row update_autofreeze uploaded reviewed unassign autofreeze refresh_cache
    store_comment store_submission_file update_submission_cache_table newest_file oldest_file
    get_bot_action newest_comment get_distinct_actions get_user_count_with_enabled_action uid_in
approved_row_scan = refl
