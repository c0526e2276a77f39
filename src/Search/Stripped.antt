-- ===== src/Search/Stripped.antt =====
-- What `unzeroNilPointers` (types/types.go) makes of a filter, field by field.
use package.text.Mathlib.TextEquality.{eq_iff as str_eq_iff}
use flashpoint_submission_sy.Prelude.{
  zero, suc, String, ◌≡◌, ◌≢◌, ◌↔◌, ◌⊎◌, ap, Option, none, some, arith,
}
use flashpoint_submission_sy.Search.Filter.{
  ℤ, pos, negsuc, SubmissionsFilter, unzero_int, unzero_string, unzero_nil_pointers,
}

-- `r` is the value, and nil where that is nil or the zero.
abbrev pub IsWithout : {A : Type 0} → A → Option A → Option A → Type 0
IsWithout z none r = r ≡ none
IsWithout z (some a) r = (a ≡ z) × (r ≡ none) ⊎ (a ≢ z) × (r ≡ some a)

unzero_string_iff : (x r : Option String) → (r ≡ unzero_string x) ↔ IsWithout "" x r
unfolding unzero_string
unzero_string_iff none r = ground arith
unzero_string_iff (some s) r = ground (arith, str_eq_iff s "")

unzero_int_iff : (x r : Option ℤ) → (r ≡ unzero_int x) ↔ IsWithout (pos 0) x r
unfolding unzero_int
unzero_int_iff none r = ground arith
unzero_int_iff (some (pos zero)) r = ground arith
unzero_int_iff (some (pos (suc n))) r = ground arith
unzero_int_iff (some (negsuc n)) r = ground arith

-- The filter `f` is `sf` with nil for each integer that is 0 and each text that is empty.
pub record IsStripped (sf f : SubmissionsFilter) : Type 0 where
  pub submission_ids : f.submission_ids ≡ sf.submission_ids
  pub submitter_id : IsWithout (pos 0) sf.submitter_id f.submitter_id
  pub title_partial : IsWithout "" sf.title_partial f.title_partial
  pub comment_partial : IsWithout "" sf.comment_partial f.comment_partial
  pub submitter_username_partial :
      IsWithout "" sf.submitter_username_partial f.submitter_username_partial
  pub platform_partial : IsWithout "" sf.platform_partial f.platform_partial
  pub library_partial : IsWithout "" sf.library_partial f.library_partial
  pub series_partial : IsWithout "" sf.series_partial f.series_partial
  pub developer_partial : IsWithout "" sf.developer_partial f.developer_partial
  pub publisher_partial : IsWithout "" sf.publisher_partial f.publisher_partial
  pub tags_partial : IsWithout "" sf.tags_partial f.tags_partial
  pub play_mode_partial : IsWithout "" sf.play_mode_partial f.play_mode_partial
  pub status_partial : IsWithout "" sf.status_partial f.status_partial
  pub version_partial : IsWithout "" sf.version_partial f.version_partial
  pub release_date_partial : IsWithout "" sf.release_date_partial f.release_date_partial
  pub language_partial : IsWithout "" sf.language_partial f.language_partial
  pub source_partial : IsWithout "" sf.source_partial f.source_partial
  pub game_notes_partial : IsWithout "" sf.game_notes_partial f.game_notes_partial
  pub curation_notes_partial : IsWithout "" sf.curation_notes_partial f.curation_notes_partial
  pub original_description_partial :
      IsWithout "" sf.original_description_partial f.original_description_partial
  pub has_additional_applications :
      IsWithout "" sf.has_additional_applications f.has_additional_applications
  pub original_filename_partial_any :
      IsWithout "" sf.original_filename_partial_any f.original_filename_partial_any
  pub current_filename_partial_any :
      IsWithout "" sf.current_filename_partial_any f.current_filename_partial_any
  pub md5_sum_partial_any : IsWithout "" sf.md5_sum_partial_any f.md5_sum_partial_any
  pub sha256_sum_partial_any : IsWithout "" sf.sha256_sum_partial_any f.sha256_sum_partial_any
  pub bot_actions : f.bot_actions ≡ sf.bot_actions
  pub results_per_page : IsWithout (pos 0) sf.results_per_page f.results_per_page
  pub page : IsWithout (pos 0) sf.page f.page
  pub assigned_status_testing : IsWithout "" sf.assigned_status_testing f.assigned_status_testing
  pub assigned_status_verification :
      IsWithout "" sf.assigned_status_verification f.assigned_status_verification
  pub requested_changed_status : IsWithout "" sf.requested_changed_status f.requested_changed_status
  pub approvals_status : IsWithout "" sf.approvals_status f.approvals_status
  pub verification_status : IsWithout "" sf.verification_status f.verification_status
  pub submission_levels : f.submission_levels ≡ sf.submission_levels
  pub assigned_status_testing_me :
      IsWithout "" sf.assigned_status_testing_me f.assigned_status_testing_me
  pub assigned_status_verification_me :
      IsWithout "" sf.assigned_status_verification_me f.assigned_status_verification_me
  pub requested_changed_status_me :
      IsWithout "" sf.requested_changed_status_me f.requested_changed_status_me
  pub approvals_status_me : IsWithout "" sf.approvals_status_me f.approvals_status_me
  pub verification_status_me : IsWithout "" sf.verification_status_me f.verification_status_me
  pub assigned_status_user_id :
      IsWithout (pos 0) sf.assigned_status_user_id f.assigned_status_user_id
  pub assigned_status_testing_user :
      IsWithout "" sf.assigned_status_testing_user f.assigned_status_testing_user
  pub assigned_status_verification_user :
      IsWithout "" sf.assigned_status_verification_user f.assigned_status_verification_user
  pub requested_changed_status_user :
      IsWithout "" sf.requested_changed_status_user f.requested_changed_status_user
  pub approvals_status_user : IsWithout "" sf.approvals_status_user f.approvals_status_user
  pub verification_status_user : IsWithout "" sf.verification_status_user f.verification_status_user
  pub is_extreme : IsWithout "" sf.is_extreme f.is_extreme
  pub distinct_actions : f.distinct_actions ≡ sf.distinct_actions
  pub distinct_actions_not : f.distinct_actions_not ≡ sf.distinct_actions_not
  pub launch_command_fuzzy : IsWithout "" sf.launch_command_fuzzy f.launch_command_fuzzy
  pub last_uploader_not_me : IsWithout "" sf.last_uploader_not_me f.last_uploader_not_me
  pub submitter_not_me : IsWithout "" sf.submitter_not_me f.submitter_not_me
  pub order_by : IsWithout "" sf.order_by f.order_by
  pub asc_desc : IsWithout "" sf.asc_desc f.asc_desc
  pub subscribed_me : IsWithout "" sf.subscribed_me f.subscribed_me
  pub is_content_change : IsWithout "" sf.is_content_change f.is_content_change
  pub exclude_legacy : f.exclude_legacy ≡ sf.exclude_legacy
  pub updated_by_id : IsWithout (pos 0) sf.updated_by_id f.updated_by_id
  pub is_frozen : IsWithout "" sf.is_frozen f.is_frozen

pub unzero_nil_pointers_iff :
    (sf f : SubmissionsFilter) → (f ≡ unzero_nil_pointers sf) ↔ IsStripped sf f
unfolding unzero_nil_pointers
unzero_nil_pointers_iff sf f = (
  λ p. record {
    submission_ids = ap (λ (g : SubmissionsFilter). g.submission_ids) p;
    submitter_id =
        (unzero_int_iff sf.submitter_id f.submitter_id).0
          (ap (λ (g : SubmissionsFilter). g.submitter_id) p);
    title_partial =
        (unzero_string_iff sf.title_partial f.title_partial).0
          (ap (λ (g : SubmissionsFilter). g.title_partial) p);
    comment_partial =
        (unzero_string_iff sf.comment_partial f.comment_partial).0
          (ap (λ (g : SubmissionsFilter). g.comment_partial) p);
    submitter_username_partial =
        (unzero_string_iff sf.submitter_username_partial f.submitter_username_partial).0
          (ap (λ (g : SubmissionsFilter). g.submitter_username_partial) p);
    platform_partial =
        (unzero_string_iff sf.platform_partial f.platform_partial).0
          (ap (λ (g : SubmissionsFilter). g.platform_partial) p);
    library_partial =
        (unzero_string_iff sf.library_partial f.library_partial).0
          (ap (λ (g : SubmissionsFilter). g.library_partial) p);
    series_partial =
        (unzero_string_iff sf.series_partial f.series_partial).0
          (ap (λ (g : SubmissionsFilter). g.series_partial) p);
    developer_partial =
        (unzero_string_iff sf.developer_partial f.developer_partial).0
          (ap (λ (g : SubmissionsFilter). g.developer_partial) p);
    publisher_partial =
        (unzero_string_iff sf.publisher_partial f.publisher_partial).0
          (ap (λ (g : SubmissionsFilter). g.publisher_partial) p);
    tags_partial =
        (unzero_string_iff sf.tags_partial f.tags_partial).0
          (ap (λ (g : SubmissionsFilter). g.tags_partial) p);
    play_mode_partial =
        (unzero_string_iff sf.play_mode_partial f.play_mode_partial).0
          (ap (λ (g : SubmissionsFilter). g.play_mode_partial) p);
    status_partial =
        (unzero_string_iff sf.status_partial f.status_partial).0
          (ap (λ (g : SubmissionsFilter). g.status_partial) p);
    version_partial =
        (unzero_string_iff sf.version_partial f.version_partial).0
          (ap (λ (g : SubmissionsFilter). g.version_partial) p);
    release_date_partial =
        (unzero_string_iff sf.release_date_partial f.release_date_partial).0
          (ap (λ (g : SubmissionsFilter). g.release_date_partial) p);
    language_partial =
        (unzero_string_iff sf.language_partial f.language_partial).0
          (ap (λ (g : SubmissionsFilter). g.language_partial) p);
    source_partial =
        (unzero_string_iff sf.source_partial f.source_partial).0
          (ap (λ (g : SubmissionsFilter). g.source_partial) p);
    game_notes_partial =
        (unzero_string_iff sf.game_notes_partial f.game_notes_partial).0
          (ap (λ (g : SubmissionsFilter). g.game_notes_partial) p);
    curation_notes_partial =
        (unzero_string_iff sf.curation_notes_partial f.curation_notes_partial).0
          (ap (λ (g : SubmissionsFilter). g.curation_notes_partial) p);
    original_description_partial =
        (unzero_string_iff sf.original_description_partial f.original_description_partial).0
          (ap (λ (g : SubmissionsFilter). g.original_description_partial) p);
    has_additional_applications =
        (unzero_string_iff sf.has_additional_applications f.has_additional_applications).0
          (ap (λ (g : SubmissionsFilter). g.has_additional_applications) p);
    original_filename_partial_any =
        (unzero_string_iff sf.original_filename_partial_any f.original_filename_partial_any).0
          (ap (λ (g : SubmissionsFilter). g.original_filename_partial_any) p);
    current_filename_partial_any =
        (unzero_string_iff sf.current_filename_partial_any f.current_filename_partial_any).0
          (ap (λ (g : SubmissionsFilter). g.current_filename_partial_any) p);
    md5_sum_partial_any =
        (unzero_string_iff sf.md5_sum_partial_any f.md5_sum_partial_any).0
          (ap (λ (g : SubmissionsFilter). g.md5_sum_partial_any) p);
    sha256_sum_partial_any =
        (unzero_string_iff sf.sha256_sum_partial_any f.sha256_sum_partial_any).0
          (ap (λ (g : SubmissionsFilter). g.sha256_sum_partial_any) p);
    bot_actions = ap (λ (g : SubmissionsFilter). g.bot_actions) p;
    results_per_page =
        (unzero_int_iff sf.results_per_page f.results_per_page).0
          (ap (λ (g : SubmissionsFilter). g.results_per_page) p);
    page = (unzero_int_iff sf.page f.page).0 (ap (λ (g : SubmissionsFilter). g.page) p);
    assigned_status_testing =
        (unzero_string_iff sf.assigned_status_testing f.assigned_status_testing).0
          (ap (λ (g : SubmissionsFilter). g.assigned_status_testing) p);
    assigned_status_verification =
        (unzero_string_iff sf.assigned_status_verification f.assigned_status_verification).0
          (ap (λ (g : SubmissionsFilter). g.assigned_status_verification) p);
    requested_changed_status =
        (unzero_string_iff sf.requested_changed_status f.requested_changed_status).0
          (ap (λ (g : SubmissionsFilter). g.requested_changed_status) p);
    approvals_status =
        (unzero_string_iff sf.approvals_status f.approvals_status).0
          (ap (λ (g : SubmissionsFilter). g.approvals_status) p);
    verification_status =
        (unzero_string_iff sf.verification_status f.verification_status).0
          (ap (λ (g : SubmissionsFilter). g.verification_status) p);
    submission_levels = ap (λ (g : SubmissionsFilter). g.submission_levels) p;
    assigned_status_testing_me =
        (unzero_string_iff sf.assigned_status_testing_me f.assigned_status_testing_me).0
          (ap (λ (g : SubmissionsFilter). g.assigned_status_testing_me) p);
    assigned_status_verification_me =
        (unzero_string_iff sf.assigned_status_verification_me f.assigned_status_verification_me).0
          (ap (λ (g : SubmissionsFilter). g.assigned_status_verification_me) p);
    requested_changed_status_me =
        (unzero_string_iff sf.requested_changed_status_me f.requested_changed_status_me).0
          (ap (λ (g : SubmissionsFilter). g.requested_changed_status_me) p);
    approvals_status_me =
        (unzero_string_iff sf.approvals_status_me f.approvals_status_me).0
          (ap (λ (g : SubmissionsFilter). g.approvals_status_me) p);
    verification_status_me =
        (unzero_string_iff sf.verification_status_me f.verification_status_me).0
          (ap (λ (g : SubmissionsFilter). g.verification_status_me) p);
    assigned_status_user_id =
        (unzero_int_iff sf.assigned_status_user_id f.assigned_status_user_id).0
          (ap (λ (g : SubmissionsFilter). g.assigned_status_user_id) p);
    assigned_status_testing_user =
        (unzero_string_iff sf.assigned_status_testing_user f.assigned_status_testing_user).0
          (ap (λ (g : SubmissionsFilter). g.assigned_status_testing_user) p);
    assigned_status_verification_user =
        (unzero_string_iff sf.assigned_status_verification_user
            f.assigned_status_verification_user).0
          (ap (λ (g : SubmissionsFilter). g.assigned_status_verification_user) p);
    requested_changed_status_user =
        (unzero_string_iff sf.requested_changed_status_user f.requested_changed_status_user).0
          (ap (λ (g : SubmissionsFilter). g.requested_changed_status_user) p);
    approvals_status_user =
        (unzero_string_iff sf.approvals_status_user f.approvals_status_user).0
          (ap (λ (g : SubmissionsFilter). g.approvals_status_user) p);
    verification_status_user =
        (unzero_string_iff sf.verification_status_user f.verification_status_user).0
          (ap (λ (g : SubmissionsFilter). g.verification_status_user) p);
    is_extreme =
        (unzero_string_iff sf.is_extreme f.is_extreme).0
          (ap (λ (g : SubmissionsFilter). g.is_extreme) p);
    distinct_actions = ap (λ (g : SubmissionsFilter). g.distinct_actions) p;
    distinct_actions_not = ap (λ (g : SubmissionsFilter). g.distinct_actions_not) p;
    launch_command_fuzzy =
        (unzero_string_iff sf.launch_command_fuzzy f.launch_command_fuzzy).0
          (ap (λ (g : SubmissionsFilter). g.launch_command_fuzzy) p);
    last_uploader_not_me =
        (unzero_string_iff sf.last_uploader_not_me f.last_uploader_not_me).0
          (ap (λ (g : SubmissionsFilter). g.last_uploader_not_me) p);
    submitter_not_me =
        (unzero_string_iff sf.submitter_not_me f.submitter_not_me).0
          (ap (λ (g : SubmissionsFilter). g.submitter_not_me) p);
    order_by =
        (unzero_string_iff sf.order_by f.order_by).0 (ap (λ (g : SubmissionsFilter). g.order_by) p);
    asc_desc =
        (unzero_string_iff sf.asc_desc f.asc_desc).0 (ap (λ (g : SubmissionsFilter). g.asc_desc) p);
    subscribed_me =
        (unzero_string_iff sf.subscribed_me f.subscribed_me).0
          (ap (λ (g : SubmissionsFilter). g.subscribed_me) p);
    is_content_change =
        (unzero_string_iff sf.is_content_change f.is_content_change).0
          (ap (λ (g : SubmissionsFilter). g.is_content_change) p);
    exclude_legacy = ap (λ (g : SubmissionsFilter). g.exclude_legacy) p;
    updated_by_id =
        (unzero_int_iff sf.updated_by_id f.updated_by_id).0
          (ap (λ (g : SubmissionsFilter). g.updated_by_id) p);
    is_frozen =
        (unzero_string_iff sf.is_frozen f.is_frozen).0
          (ap (λ (g : SubmissionsFilter). g.is_frozen) p);
  },
  λ v. λ i. record {
    submission_ids = v.submission_ids i;
    submitter_id = (unzero_int_iff sf.submitter_id f.submitter_id).1 v.submitter_id i;
    title_partial = (unzero_string_iff sf.title_partial f.title_partial).1 v.title_partial i;
    comment_partial =
        (unzero_string_iff sf.comment_partial f.comment_partial).1 v.comment_partial i;
    submitter_username_partial =
        (unzero_string_iff sf.submitter_username_partial f.submitter_username_partial).1
          v.submitter_username_partial i;
    platform_partial =
        (unzero_string_iff sf.platform_partial f.platform_partial).1 v.platform_partial i;
    library_partial =
        (unzero_string_iff sf.library_partial f.library_partial).1 v.library_partial i;
    series_partial = (unzero_string_iff sf.series_partial f.series_partial).1 v.series_partial i;
    developer_partial =
        (unzero_string_iff sf.developer_partial f.developer_partial).1 v.developer_partial i;
    publisher_partial =
        (unzero_string_iff sf.publisher_partial f.publisher_partial).1 v.publisher_partial i;
    tags_partial = (unzero_string_iff sf.tags_partial f.tags_partial).1 v.tags_partial i;
    play_mode_partial =
        (unzero_string_iff sf.play_mode_partial f.play_mode_partial).1 v.play_mode_partial i;
    status_partial = (unzero_string_iff sf.status_partial f.status_partial).1 v.status_partial i;
    version_partial =
        (unzero_string_iff sf.version_partial f.version_partial).1 v.version_partial i;
    release_date_partial =
        (unzero_string_iff sf.release_date_partial f.release_date_partial).1 v.release_date_partial
          i;
    language_partial =
        (unzero_string_iff sf.language_partial f.language_partial).1 v.language_partial i;
    source_partial = (unzero_string_iff sf.source_partial f.source_partial).1 v.source_partial i;
    game_notes_partial =
        (unzero_string_iff sf.game_notes_partial f.game_notes_partial).1 v.game_notes_partial i;
    curation_notes_partial =
        (unzero_string_iff sf.curation_notes_partial f.curation_notes_partial).1
          v.curation_notes_partial i;
    original_description_partial =
        (unzero_string_iff sf.original_description_partial f.original_description_partial).1
          v.original_description_partial i;
    has_additional_applications =
        (unzero_string_iff sf.has_additional_applications f.has_additional_applications).1
          v.has_additional_applications i;
    original_filename_partial_any =
        (unzero_string_iff sf.original_filename_partial_any f.original_filename_partial_any).1
          v.original_filename_partial_any i;
    current_filename_partial_any =
        (unzero_string_iff sf.current_filename_partial_any f.current_filename_partial_any).1
          v.current_filename_partial_any i;
    md5_sum_partial_any =
        (unzero_string_iff sf.md5_sum_partial_any f.md5_sum_partial_any).1 v.md5_sum_partial_any i;
    sha256_sum_partial_any =
        (unzero_string_iff sf.sha256_sum_partial_any f.sha256_sum_partial_any).1
          v.sha256_sum_partial_any i;
    bot_actions = v.bot_actions i;
    results_per_page =
        (unzero_int_iff sf.results_per_page f.results_per_page).1 v.results_per_page i;
    page = (unzero_int_iff sf.page f.page).1 v.page i;
    assigned_status_testing =
        (unzero_string_iff sf.assigned_status_testing f.assigned_status_testing).1
          v.assigned_status_testing i;
    assigned_status_verification =
        (unzero_string_iff sf.assigned_status_verification f.assigned_status_verification).1
          v.assigned_status_verification i;
    requested_changed_status =
        (unzero_string_iff sf.requested_changed_status f.requested_changed_status).1
          v.requested_changed_status i;
    approvals_status =
        (unzero_string_iff sf.approvals_status f.approvals_status).1 v.approvals_status i;
    verification_status =
        (unzero_string_iff sf.verification_status f.verification_status).1 v.verification_status i;
    submission_levels = v.submission_levels i;
    assigned_status_testing_me =
        (unzero_string_iff sf.assigned_status_testing_me f.assigned_status_testing_me).1
          v.assigned_status_testing_me i;
    assigned_status_verification_me =
        (unzero_string_iff sf.assigned_status_verification_me f.assigned_status_verification_me).1
          v.assigned_status_verification_me i;
    requested_changed_status_me =
        (unzero_string_iff sf.requested_changed_status_me f.requested_changed_status_me).1
          v.requested_changed_status_me i;
    approvals_status_me =
        (unzero_string_iff sf.approvals_status_me f.approvals_status_me).1 v.approvals_status_me i;
    verification_status_me =
        (unzero_string_iff sf.verification_status_me f.verification_status_me).1
          v.verification_status_me i;
    assigned_status_user_id =
        (unzero_int_iff sf.assigned_status_user_id f.assigned_status_user_id).1
          v.assigned_status_user_id i;
    assigned_status_testing_user =
        (unzero_string_iff sf.assigned_status_testing_user f.assigned_status_testing_user).1
          v.assigned_status_testing_user i;
    assigned_status_verification_user =
        (unzero_string_iff sf.assigned_status_verification_user
            f.assigned_status_verification_user).1
          v.assigned_status_verification_user i;
    requested_changed_status_user =
        (unzero_string_iff sf.requested_changed_status_user f.requested_changed_status_user).1
          v.requested_changed_status_user i;
    approvals_status_user =
        (unzero_string_iff sf.approvals_status_user f.approvals_status_user).1
          v.approvals_status_user i;
    verification_status_user =
        (unzero_string_iff sf.verification_status_user f.verification_status_user).1
          v.verification_status_user i;
    is_extreme = (unzero_string_iff sf.is_extreme f.is_extreme).1 v.is_extreme i;
    distinct_actions = v.distinct_actions i;
    distinct_actions_not = v.distinct_actions_not i;
    launch_command_fuzzy =
        (unzero_string_iff sf.launch_command_fuzzy f.launch_command_fuzzy).1 v.launch_command_fuzzy
          i;
    last_uploader_not_me =
        (unzero_string_iff sf.last_uploader_not_me f.last_uploader_not_me).1 v.last_uploader_not_me
          i;
    submitter_not_me =
        (unzero_string_iff sf.submitter_not_me f.submitter_not_me).1 v.submitter_not_me i;
    order_by = (unzero_string_iff sf.order_by f.order_by).1 v.order_by i;
    asc_desc = (unzero_string_iff sf.asc_desc f.asc_desc).1 v.asc_desc i;
    subscribed_me = (unzero_string_iff sf.subscribed_me f.subscribed_me).1 v.subscribed_me i;
    is_content_change =
        (unzero_string_iff sf.is_content_change f.is_content_change).1 v.is_content_change i;
    exclude_legacy = v.exclude_legacy i;
    updated_by_id = (unzero_int_iff sf.updated_by_id f.updated_by_id).1 v.updated_by_id i;
    is_frozen = (unzero_string_iff sf.is_frozen f.is_frozen).1 v.is_frozen i;
  },
)
