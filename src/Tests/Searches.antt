-- ===== src/Tests/Searches.antt =====
-- A search by a filter (types/types.go, database/searchmonster.go), and the theorems at it.
use flashpoint_submission_sy.Prelude.{
  ℕ, ◌≤◌, ◌≡◌, refl, ◌⊎◌, true, false, none, some, [], ◌∷◌, ok, err, Error,
}
use flashpoint_submission_sy.Search.Filter.{pos, SubmissionsFilter, unzero_nil_pointers}
use flashpoint_submission_sy.Search.Validation.{validate}
use flashpoint_submission_sy.Search.Blocks.{Library}
use flashpoint_submission_sy.Search.Query.{Built, paging, search_query}
use flashpoint_submission_sy.Search.Matching.{
  SizeOf, OffsetOf, IsMatched, search_query-IsMatched, paging_bounds,
}

-- A library whose texts are short: no commas, no spaces, and each column is mentioned.
abbrev plain_library : Library
plain_library = record {
  split_commas = λ s. s ∷ [];
  trim_space = λ s. s;
  format_int = λ n. "9";
  contains = λ s t. true;
}

-- The third page of fifty submissions, by size, that a user approved; the publisher's field is empty.
abbrev asked : SubmissionsFilter
asked = record {
  submission_ids = [];
  submitter_id = some (pos 7);
  title_partial = some "alien";
  comment_partial = some "crash";
  submitter_username_partial = none;
  platform_partial = some "Flash";
  library_partial = none;
  series_partial = none;
  developer_partial = none;
  publisher_partial = some "";
  tags_partial = none;
  play_mode_partial = none;
  status_partial = none;
  version_partial = none;
  release_date_partial = none;
  language_partial = none;
  source_partial = none;
  game_notes_partial = none;
  curation_notes_partial = none;
  original_description_partial = none;
  has_additional_applications = none;
  original_filename_partial_any = none;
  current_filename_partial_any = none;
  md5_sum_partial_any = none;
  sha256_sum_partial_any = none;
  bot_actions = [];
  results_per_page = some (pos 50);
  page = some (pos 3);
  assigned_status_testing = none;
  assigned_status_verification = none;
  requested_changed_status = none;
  approvals_status = none;
  verification_status = none;
  submission_levels = [];
  assigned_status_testing_me = none;
  assigned_status_verification_me = none;
  requested_changed_status_me = none;
  approvals_status_me = none;
  verification_status_me = none;
  assigned_status_user_id = some (pos 9);
  assigned_status_testing_user = none;
  assigned_status_verification_user = none;
  requested_changed_status_user = none;
  approvals_status_user = some "yes";
  verification_status_user = none;
  is_extreme = none;
  distinct_actions = [];
  distinct_actions_not = [];
  launch_command_fuzzy = none;
  last_uploader_not_me = none;
  submitter_not_me = none;
  order_by = some "size";
  asc_desc = none;
  subscribed_me = none;
  is_content_change = none;
  exclude_legacy = false;
  updated_by_id = none;
  is_frozen = none;
}

asked_validates : validate asked ≡ ok (unzero_nil_pointers asked)
unfolding validate
asked_validates = refl

search_query-IsMatched_example :
    ((b : Built) × (search_query plain_library (pos 4) (some asked) ≡ ok b) × IsMatched b)
    ⊎ ((sf : SubmissionsFilter) × (e : Error) × (some asked ≡ some sf)
        × (validate sf ≡ err e)
        × (search_query plain_library (pos 4) (some asked) ≡ err e))
search_query-IsMatched_example = search_query-IsMatched plain_library (pos 4) (some asked)

paging_bounds_example :
    (n : ℕ) × ((paging (unzero_nil_pointers asked)).limit ≡ pos n)
    × SizeOf (some (pos 50)) n
    × (1 ≤ n)
    × (n ≤ 1000)
    × OffsetOf (some (pos 3)) n (paging (unzero_nil_pointers asked)).offset
unfolding unzero_nil_pointers
paging_bounds_example = paging_bounds asked (unzero_nil_pointers asked) asked_validates
