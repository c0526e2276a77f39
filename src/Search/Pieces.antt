-- ===== src/Search/Pieces.antt =====
-- Each piece that the fields of a filter append in `SearchSubmissions` (database/searchmonster.go),
-- beside its arguments.
use package.text.Mathlib.Text.{◌==◌ as str_eq}
use mathlib.Core.Path.{subst}
use flashpoint_submission_sy.Prelude.{
  String, ◌≡◌, refl, true, Option, none, some, List, any, if_both, All, arith,
}
use flashpoint_submission_sy.Search.Filter.{ℤ, SubmissionsFilter}
use flashpoint_submission_sy.Search.Validation.{is_word, status_checks}
use flashpoint_submission_sy.Search.Admission.{AllPass}
use flashpoint_submission_sy.Search.Placeholders.{placeholders, placeholders_each}
use flashpoint_submission_sy.Search.Blocks.{
  Library, str, Piece, submissions_only, title_block, curation_notes_block, extreme_block,
}
use flashpoint_submission_sy.Search.Multifilter.{multifilter}
use flashpoint_submission_sy.Search.Build.{
  legacy_excluded, content_blocks, status_blocks, other_blocks,
}
use flashpoint_submission_sy.Search.Balance.{
  IsBalanced, nothing-IsBalanced, given-IsBalanced, some_of-IsBalanced, sequence_block-IsBalanced,
  text_block-IsBalanced, status_block-IsBalanced, mark_block-IsBalanced,
}
use flashpoint_submission_sy.Search.Aligned.{
  multifilter-IsBalanced, append_piece-IsBalanced, legacy_excluded-IsBalanced,
  applications-IsBalanced, last_uploader-IsBalanced, subscribed-IsBalanced,
  content_change-IsBalanced, frozen-IsBalanced,
}

-- Each of some pieces.
abbrev pub AreBalanced : List Piece → Type 0
AreBalanced ps = All IsBalanced ps

-- A value that passes its check is one of the words.
known_word :
    (value : Option String) (words : List String) {s : String}
    → value ≡ some s
    → is_word value words ≡ true
    → any (λ w. str_eq s w) words ≡ true
known_word none words e h = absurd (ground arith)
known_word (some v) words {s} e h =
    let same : v ≡ s = ground arith in subst (λ x. any (λ w. str_eq x w) words ≡ true) same h

module _ (lib : Library) (uid : ℤ) (f : SubmissionsFilter) where
  pub content_blocks-AreBalanced : AreBalanced (content_blocks lib uid f)
  unfolding content_blocks title_block curation_notes_block submissions_only placeholders_each
      placeholders
  content_blocks-AreBalanced = (
    some_of-IsBalanced _ _ "))" _ refl refl refl,
    (
      given-IsBalanced f.submitter_id _ (λ id e. (refl, refl)),
      (
        given-IsBalanced f.title_partial _ (λ s e. (refl, refl)),
        (
          given-IsBalanced f.comment_partial _ (λ s e. legacy_excluded-IsBalanced),
          (
            given-IsBalanced f.submitter_username_partial _ (λ s e.
                append_piece-IsBalanced (multifilter lib "uploader.username" none s) legacy_excluded
                  (multifilter-IsBalanced lib "uploader.username" none s refl tt)
                  legacy_excluded-IsBalanced),
            (
              given-IsBalanced f.platform_partial _
                  (λ s e. multifilter-IsBalanced lib "meta.platform" (some "platform") s refl refl),
              (
                given-IsBalanced f.library_partial _
                    (λ s e. text_block-IsBalanced "library" s refl),
                (
                  given-IsBalanced f.series_partial _
                      (λ s e. text_block-IsBalanced "series" s refl),
                  (
                    given-IsBalanced f.developer_partial _
                        (λ s e. text_block-IsBalanced "developer" s refl),
                    (
                      given-IsBalanced f.publisher_partial _
                          (λ s e. text_block-IsBalanced "publisher" s refl),
                      (
                        given-IsBalanced f.play_mode_partial _
                            (λ s e. text_block-IsBalanced "play_mode" s refl),
                        (
                          given-IsBalanced f.status_partial _
                              (λ s e. text_block-IsBalanced "status" s refl),
                          (
                            given-IsBalanced f.version_partial _
                                (λ s e. text_block-IsBalanced "version" s refl),
                            (
                              given-IsBalanced f.release_date_partial _
                                  (λ s e. text_block-IsBalanced "release_date" s refl),
                              (
                                given-IsBalanced f.language_partial _
                                    (λ s e. text_block-IsBalanced "languages" s refl),
                                (
                                  given-IsBalanced f.source_partial _
                                      (λ s e. text_block-IsBalanced "source" s refl),
                                  (
                                    given-IsBalanced f.game_notes_partial _
                                        (λ s e. text_block-IsBalanced "game_notes" s refl),
                                    (
                                      given-IsBalanced f.curation_notes_partial _
                                          (λ s e. (refl, refl)),
                                      (
                                        given-IsBalanced f.original_description_partial _ (λ s e.
                                            text_block-IsBalanced "original_description" s refl),
                                        (
                                          given-IsBalanced f.tags_partial _ (λ s e.
                                              multifilter-IsBalanced lib "meta.tags" (some "tags") s
                                                refl refl),
                                          (
                                            given-IsBalanced f.has_additional_applications _
                                                (λ s e. applications-IsBalanced s),
                                            (
                                              given-IsBalanced f.original_filename_partial_any _
                                                  (λ s e.
                                                    sequence_block-IsBalanced
                                                      "original_filename_sequence" s refl),
                                              (
                                                given-IsBalanced f.current_filename_partial_any _
                                                    (λ s e.
                                                      sequence_block-IsBalanced
                                                        "current_filename_sequence" s refl),
                                                (
                                                  given-IsBalanced f.md5_sum_partial_any _ (λ s e.
                                                      sequence_block-IsBalanced "md5sum_sequence" s
                                                        refl),
                                                  (
                                                    given-IsBalanced f.sha256_sum_partial_any _
                                                        (λ s e.
                                                          sequence_block-IsBalanced
                                                            "sha256sum_sequence" s refl),
                                                    (
                                                      some_of-IsBalanced _ _ "))" _ refl refl refl,
                                                      (
                                                        some_of-IsBalanced _ _ "))" _ refl refl
                                                            refl,
                                                        tt,
                                                      ),
                                                    ),
                                                  ),
                                                ),
                                              ),
                                            ),
                                          ),
                                        ),
                                      ),
                                    ),
                                  ),
                                ),
                              ),
                            ),
                          ),
                        ),
                      ),
                    ),
                  ),
                ),
              ),
            ),
          ),
        ),
      ),
    ),
  )

  pub other_blocks-AreBalanced : AreBalanced (other_blocks lib uid f)
  unfolding other_blocks extreme_block submissions_only placeholders_each placeholders
  other_blocks-AreBalanced = (
    given-IsBalanced f.is_extreme _ (λ s e. (refl, refl)),
    (
      some_of-IsBalanced _ _ "))" _ refl refl refl,
      (
        some_of-IsBalanced _ _ "))" _ refl refl refl,
        (
          given-IsBalanced f.launch_command_fuzzy _
              (λ s e. text_block-IsBalanced "launch_command" s refl),
          (
            given-IsBalanced f.last_uploader_not_me _ (λ s e. last_uploader-IsBalanced uid s),
            (
              given-IsBalanced f.submitter_not_me _ (λ s e. (refl, refl)),
              (
                given-IsBalanced f.subscribed_me _ (λ s e. subscribed-IsBalanced uid s),
                (
                  if_both IsBalanced f.exclude_legacy _ _ legacy_excluded-IsBalanced
                      nothing-IsBalanced,
                  (
                    given-IsBalanced f.updated_by_id _ (λ id e. (refl, refl)),
                    (
                      given-IsBalanced f.is_content_change _ (λ s e. content_change-IsBalanced s),
                      (given-IsBalanced f.is_frozen _ (λ s e. frozen-IsBalanced s), tt),
                    ),
                  ),
                ),
              ),
            ),
          ),
        ),
      ),
    ),
  )

  pub status_blocks-AreBalanced : AllPass (status_checks f) → AreBalanced (status_blocks lib uid f)
  unfolding status_blocks status_checks placeholders
  status_blocks-AreBalanced h = (
    given-IsBalanced f.assigned_status_testing _ (λ s e.
        status_block-IsBalanced "unassigned" "assigned" "active_assigned_testing_ids" s refl),
    (
      given-IsBalanced f.assigned_status_verification _ (λ s e.
          status_block-IsBalanced "unassigned" "assigned" "active_assigned_verification_ids" s
            refl),
      (
        given-IsBalanced f.requested_changed_status _
            (λ s e. status_block-IsBalanced "none" "ongoing" "active_requested_changes_ids" s refl),
        (
          given-IsBalanced f.approvals_status _
              (λ s e. status_block-IsBalanced "none" "approved" "active_approved_ids" s refl),
          (
            given-IsBalanced f.verification_status _
                (λ s e. status_block-IsBalanced "none" "verified" "active_verified_ids" s refl),
            (
              given-IsBalanced f.assigned_status_testing_me _ (λ s e.
                  mark_block-IsBalanced "unassigned" "assigned" "active_assigned_testing_ids"
                    (str (lib.format_int uid)) s refl
                    (known_word f.assigned_status_testing_me _ e h.1.1.1.1.1.1.0)),
              (
                given-IsBalanced f.assigned_status_verification_me _ (λ s e.
                    mark_block-IsBalanced "unassigned" "assigned" "active_assigned_verification_ids"
                      (str (lib.format_int uid)) s refl
                      (known_word f.assigned_status_verification_me _ e h.1.1.1.1.1.1.1.0)),
                (
                  given-IsBalanced f.requested_changed_status_me _ (λ s e.
                      mark_block-IsBalanced "none" "ongoing" "active_requested_changes_ids"
                        (str (lib.format_int uid)) s refl
                        (known_word f.requested_changed_status_me _ e h.1.1.1.1.1.1.1.1.0)),
                  (
                    given-IsBalanced f.approvals_status_me _ (λ s e.
                        mark_block-IsBalanced "no" "yes" "active_approved_ids"
                          (str (lib.format_int uid)) s refl
                          (known_word f.approvals_status_me _ e h.1.1.1.1.1.1.1.1.1.0)),
                    (
                      given-IsBalanced f.verification_status_me _ (λ s e.
                          mark_block-IsBalanced "no" "yes" "active_verified_ids"
                            (str (lib.format_int uid)) s refl
                            (known_word f.verification_status_me _ e h.1.1.1.1.1.1.1.1.1.1.0)),
                      tt,
                    ),
                  ),
                ),
              ),
            ),
          ),
        ),
      ),
    ),
  )
