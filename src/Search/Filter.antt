-- ===== src/Search/Filter.antt =====
-- `SubmissionsFilter` of types/types.go, and `unzeroNilPointers`. An int64 is an integer in range.
use package.text.Mathlib.Text.{◌==◌ as str_eq}
use flashpoint_submission_sy.Prelude.{ℕ, String, Bool, Option, none, some, List, ltb, if◌then◌else◌}

-- `negsuc n` is -(n + 1).
pub data ℤ : Type 0 where
  pos : ℕ → ℤ
  negsuc : ℕ → ℤ

pub record SubmissionsFilter : Type 0 where
  pub submission_ids : List ℤ
  pub submitter_id : Option ℤ
  pub title_partial : Option String
  pub comment_partial : Option String
  pub submitter_username_partial : Option String
  pub platform_partial : Option String
  pub library_partial : Option String
  pub series_partial : Option String
  pub developer_partial : Option String
  pub publisher_partial : Option String
  pub tags_partial : Option String
  pub play_mode_partial : Option String
  pub status_partial : Option String
  pub version_partial : Option String
  pub release_date_partial : Option String
  pub language_partial : Option String
  pub source_partial : Option String
  pub game_notes_partial : Option String
  pub curation_notes_partial : Option String
  pub original_description_partial : Option String
  pub has_additional_applications : Option String
  pub original_filename_partial_any : Option String
  pub current_filename_partial_any : Option String
  pub md5_sum_partial_any : Option String
  pub sha256_sum_partial_any : Option String
  pub bot_actions : List String
  pub results_per_page : Option ℤ
  pub page : Option ℤ
  pub assigned_status_testing : Option String
  pub assigned_status_verification : Option String
  pub requested_changed_status : Option String
  pub approvals_status : Option String
  pub verification_status : Option String
  pub submission_levels : List String
  pub assigned_status_testing_me : Option String
  pub assigned_status_verification_me : Option String
  pub requested_changed_status_me : Option String
  pub approvals_status_me : Option String
  pub verification_status_me : Option String
  pub assigned_status_user_id : Option ℤ
  pub assigned_status_testing_user : Option String
  pub assigned_status_verification_user : Option String
  pub requested_changed_status_user : Option String
  pub approvals_status_user : Option String
  pub verification_status_user : Option String
  pub is_extreme : Option String
  pub distinct_actions : List String
  pub distinct_actions_not : List String
  pub launch_command_fuzzy : Option String
  pub last_uploader_not_me : Option String
  pub submitter_not_me : Option String
  pub order_by : Option String
  pub asc_desc : Option String
  pub subscribed_me : Option String
  pub is_content_change : Option String
  pub exclude_legacy : Bool
  pub updated_by_id : Option ℤ
  pub is_frozen : Option String

-- A pointer to a zero integer, and one to an empty string, become nil.
unfoldable pub unzero_int : Option ℤ → Option ℤ
unzero_int none = none
unzero_int (some (pos n)) = if ltb 0 n then some (pos n) else none
unzero_int (some (negsuc n)) = some (negsuc n)

unfoldable pub unzero_string : Option String → Option String
unzero_string none = none
unzero_string (some s) = if str_eq s "" then none else some s

unfoldable pub unzero_nil_pointers : SubmissionsFilter → SubmissionsFilter
unfolding unzero_int unzero_string
unzero_nil_pointers sf = record sf {
  submitter_id = unzero_int sf.submitter_id;
  title_partial = unzero_string sf.title_partial;
  comment_partial = unzero_string sf.comment_partial;
  submitter_username_partial = unzero_string sf.submitter_username_partial;
  platform_partial = unzero_string sf.platform_partial;
  library_partial = unzero_string sf.library_partial;
  series_partial = unzero_string sf.series_partial;
  developer_partial = unzero_string sf.developer_partial;
  publisher_partial = unzero_string sf.publisher_partial;
  tags_partial = unzero_string sf.tags_partial;
  play_mode_partial = unzero_string sf.play_mode_partial;
  status_partial = unzero_string sf.status_partial;
  version_partial = unzero_string sf.version_partial;
  release_date_partial = unzero_string sf.release_date_partial;
  language_partial = unzero_string sf.language_partial;
  source_partial = unzero_string sf.source_partial;
  game_notes_partial = unzero_string sf.game_notes_partial;
  curation_notes_partial = unzero_string sf.curation_notes_partial;
  original_description_partial = unzero_string sf.original_description_partial;
  has_additional_applications = unzero_string sf.has_additional_applications;
  original_filename_partial_any = unzero_string sf.original_filename_partial_any;
  current_filename_partial_any = unzero_string sf.current_filename_partial_any;
  md5_sum_partial_any = unzero_string sf.md5_sum_partial_any;
  sha256_sum_partial_any = unzero_string sf.sha256_sum_partial_any;
  results_per_page = unzero_int sf.results_per_page;
  page = unzero_int sf.page;
  assigned_status_testing = unzero_string sf.assigned_status_testing;
  assigned_status_verification = unzero_string sf.assigned_status_verification;
  requested_changed_status = unzero_string sf.requested_changed_status;
  approvals_status = unzero_string sf.approvals_status;
  verification_status = unzero_string sf.verification_status;
  assigned_status_testing_me = unzero_string sf.assigned_status_testing_me;
  assigned_status_verification_me = unzero_string sf.assigned_status_verification_me;
  requested_changed_status_me = unzero_string sf.requested_changed_status_me;
  approvals_status_me = unzero_string sf.approvals_status_me;
  verification_status_me = unzero_string sf.verification_status_me;
  assigned_status_user_id = unzero_int sf.assigned_status_user_id;
  assigned_status_testing_user = unzero_string sf.assigned_status_testing_user;
  assigned_status_verification_user = unzero_string sf.assigned_status_verification_user;
  requested_changed_status_user = unzero_string sf.requested_changed_status_user;
  approvals_status_user = unzero_string sf.approvals_status_user;
  verification_status_user = unzero_string sf.verification_status_user;
  is_extreme = unzero_string sf.is_extreme;
  launch_command_fuzzy = unzero_string sf.launch_command_fuzzy;
  last_uploader_not_me = unzero_string sf.last_uploader_not_me;
  submitter_not_me = unzero_string sf.submitter_not_me;
  order_by = unzero_string sf.order_by;
  asc_desc = unzero_string sf.asc_desc;
  subscribed_me = unzero_string sf.subscribed_me;
  is_content_change = unzero_string sf.is_content_change;
  updated_by_id = unzero_int sf.updated_by_id;
  is_frozen = unzero_string sf.is_frozen;
}
