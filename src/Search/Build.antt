-- ===== src/Search/Build.antt =====
-- The query that `SearchSubmissions` (database/searchmonster.go) builds from a filter, with its
-- arguments. The transaction, the scan of the rows and the total are in Database/Search.
use flashpoint_submission_sy.Prelude.{
  none, some, List, [], ◌∷◌, ◌++◌, map, if◌then◌else◌, Result, ok, ◌>>=◌,
}
use flashpoint_submission_sy.Search.Filter.{ℤ, SubmissionsFilter}
use flashpoint_submission_sy.Search.Blocks.{
  Library, int, str, Piece, nothing, no_legacy, submissions_only, given, some_of, title_block,
  text_block, curation_notes_block, sequence_block, like, additional_applications_block,
  status_block, mark_block, user_mark_block, extreme_block, last_uploader_block, subscribed_block,
  content_change_block, frozen_block,
}
use flashpoint_submission_sy.Search.Multifilter.{multifilter}

-- A block that appends to the legacy conditions alone.
unfoldable pub legacy_excluded : Piece
legacy_excluded = record { filters = []; master_filters = no_legacy; args = []; master_args = [] }

unfoldable pub append_piece : Piece → Piece → Piece
append_piece p q = record {
  filters = p.filters ++ q.filters;
  master_filters = p.master_filters ++ q.master_filters;
  args = p.args ++ q.args;
  master_args = p.master_args ++ q.master_args;
}

module _ (lib : Library) (uid : ℤ) where
  -- The blocks up to the levels, in their order.
  unfoldable pub content_blocks : SubmissionsFilter → List Piece
  unfolding given some_of submissions_only title_block legacy_excluded append_piece multifilter
      text_block curation_notes_block additional_applications_block sequence_block
  content_blocks f =
      some_of "(submission.id IN(?" ",?" "))" (map int f.submission_ids)
      ∷ given f.submitter_id (λ id. submissions_only ("(uploader.id = ?)" ∷ []) (int id ∷ []))
      ∷ given f.title_partial title_block
      ∷ given f.comment_partial (λ s. legacy_excluded)
      ∷ given f.submitter_username_partial
          (λ s. append_piece (multifilter lib "uploader.username" none s) legacy_excluded)
      ∷ given f.platform_partial (multifilter lib "meta.platform" (some "platform"))
      ∷ given f.library_partial (text_block "library")
      ∷ given f.series_partial (text_block "series")
      ∷ given f.developer_partial (text_block "developer")
      ∷ given f.publisher_partial (text_block "publisher")
      ∷ given f.play_mode_partial (text_block "play_mode")
      ∷ given f.status_partial (text_block "status")
      ∷ given f.version_partial (text_block "version")
      ∷ given f.release_date_partial (text_block "release_date")
      ∷ given f.language_partial (text_block "languages")
      ∷ given f.source_partial (text_block "source")
      ∷ given f.game_notes_partial (text_block "game_notes")
      ∷ given f.curation_notes_partial curation_notes_block
      ∷ given f.original_description_partial (text_block "original_description")
      ∷ given f.tags_partial (multifilter lib "meta.tags" (some "tags"))
      ∷ given f.has_additional_applications additional_applications_block
      ∷ given f.original_filename_partial_any (sequence_block "original_filename_sequence")
      ∷ given f.current_filename_partial_any (sequence_block "current_filename_sequence")
      ∷ given f.md5_sum_partial_any (sequence_block "md5sum_sequence")
      ∷ given f.sha256_sum_partial_any (sequence_block "sha256sum_sequence")
      ∷ some_of "(submission_cache.bot_action IN(?" ",?" "))" (map str f.bot_actions)
      ∷ some_of
          "((SELECT name FROM submission_level WHERE id = submission.fk_submission_level_id) IN(?"
          ",?" "))" (map str f.submission_levels)
      ∷ []

  -- The statuses, and those that the caller has set.
  unfoldable pub status_blocks : SubmissionsFilter → List Piece
  unfolding given status_block mark_block
  status_blocks f =
      let me = str (lib.format_int uid) in
      given f.assigned_status_testing
        (status_block "unassigned" "assigned" "active_assigned_testing_ids")
      ∷ given f.assigned_status_verification
          (status_block "unassigned" "assigned" "active_assigned_verification_ids")
      ∷ given f.requested_changed_status
          (status_block "none" "ongoing" "active_requested_changes_ids")
      ∷ given f.approvals_status (status_block "none" "approved" "active_approved_ids")
      ∷ given f.verification_status (status_block "none" "verified" "active_verified_ids")
      ∷ given f.assigned_status_testing_me
          (mark_block "unassigned" "assigned" "active_assigned_testing_ids" me)
      ∷ given f.assigned_status_verification_me
          (mark_block "unassigned" "assigned" "active_assigned_verification_ids" me)
      ∷ given f.requested_changed_status_me
          (mark_block "none" "ongoing" "active_requested_changes_ids" me)
      ∷ given f.approvals_status_me (mark_block "no" "yes" "active_approved_ids" me)
      ∷ given f.verification_status_me (mark_block "no" "yes" "active_verified_ids" me)
      ∷ []

  -- The statuses that a given user has set.
  unfoldable pub user_blocks : SubmissionsFilter → List (Result Piece)
  unfolding user_mark_block
  user_blocks f =
      let block = user_mark_block lib.format_int in
      let user = f.assigned_status_user_id in
      block "unassigned" "assigned" "active_assigned_testing_ids" user
        f.assigned_status_testing_user
      ∷ block "unassigned" "assigned" "active_assigned_verification_ids" user
          f.assigned_status_verification_user
      ∷ block "none" "ongoing" "active_requested_changes_ids" user f.requested_changed_status_user
      ∷ block "no" "yes" "active_approved_ids" user f.approvals_status_user
      ∷ block "no" "yes" "active_verified_ids" user f.verification_status_user
      ∷ []

  -- The blocks after them.
  unfoldable pub other_blocks : SubmissionsFilter → List Piece
  unfolding given some_of submissions_only extreme_block text_block like last_uploader_block
      subscribed_block legacy_excluded content_change_block frozen_block
  other_blocks f =
      given f.is_extreme extreme_block
      ∷ some_of "(submission_cache.distinct_actions REGEXP CONCAT(CONCAT(?)" ", '|', CONCAT(?)" "))"
          (map str f.distinct_actions)
      ∷ some_of "(submission_cache.distinct_actions NOT REGEXP CONCAT(CONCAT(?)" ", '|', CONCAT(?)"
          "))" (map str f.distinct_actions_not)
      ∷ given f.launch_command_fuzzy (text_block "launch_command")
      ∷ given f.last_uploader_not_me (last_uploader_block uid)
      ∷ given f.submitter_not_me
          (λ s. submissions_only ("(oldest_file.fk_user_id != ?)" ∷ []) (int uid ∷ []))
      ∷ given f.subscribed_me (subscribed_block uid)
      ∷ (if f.exclude_legacy then legacy_excluded else nothing)
      ∷ given f.updated_by_id (λ id. submissions_only ("(updater.id = ?)" ∷ []) (int id ∷ []))
      ∷ given f.is_content_change content_change_block
      ∷ given f.is_frozen frozen_block
      ∷ []

-- The blocks in a row; the first panic ends them.
unfoldable pub collect : List (Result Piece) → Result (List Piece)
collect [] = ok []
collect (r ∷ rs) = let rest = collect rs in r >>= λ p. rest >>= λ ps. ok (p ∷ ps)

unfoldable pub append_pieces : List Piece → Piece
unfolding append_piece
append_pieces [] = nothing
append_pieces (p ∷ ps) = append_piece p (append_pieces ps)

unfoldable pub conditions : Library → ℤ → SubmissionsFilter → Result Piece
unfolding content_blocks status_blocks user_blocks other_blocks collect append_pieces
conditions lib uid f = do
  marks ← collect (user_blocks lib uid f)
  ok (
      append_pieces (
        content_blocks lib uid f ++ (status_blocks lib uid f ++ (marks ++ other_blocks lib uid f))))
