-- ===== src/Search/Blocks.antt =====
-- What each block of `SearchSubmissions` (database/searchmonster.go) appends to the conditions and
-- their arguments. The functions of the standard library are fields of `Library`.
use package.text.Mathlib.Text.{◌==◌ as str_eq}
use flashpoint_submission_sy.Prelude.{
  String, Bool, Option, none, some, List, [], ◌∷◌, length, if◌then◌else◌, Result, ok, err, panic,
}
use flashpoint_submission_sy.Search.Filter.{ℤ}
use flashpoint_submission_sy.Search.Placeholders.{concat, repeat}

-- `strings.Split(s, ",")`, `strings.TrimSpace`, `strconv.FormatInt(n, 10)` and `strings.Contains`
pub record Library : Type 0 where
  pub split_commas : String → List String
  pub trim_space : String → String
  pub format_int : ℤ → String
  pub contains : String → String → Bool

-- An argument of the query.
pub data Arg : Type 0 where
  int : ℤ → Arg
  str : String → Arg

-- What is appended to `filters`, `masterFilters`, `data` and `masterData`.
pub record Piece : Type 0 where
  pub filters : List String
  pub master_filters : List String
  pub args : List Arg
  pub master_args : List Arg

abbrev pub nothing : Piece
nothing = record { filters = []; master_filters = []; args = []; master_args = [] }

-- The condition that no legacy entry meets.
abbrev pub no_legacy : List String
no_legacy = "(1 = 0)" ∷ []

-- A condition on submissions alone.
unfoldable pub submissions_only : List String → List Arg → Piece
submissions_only filters args = record {
  filters = filters;
  master_filters = no_legacy;
  args = args;
  master_args = [];
}

-- `if value != nil`
unfoldable pub given {ℓ} : {A : Type ℓ} → Option A → (A → Piece) → Piece
given none block = nothing
given (some a) block = block a

-- `utils.FormatLike`
unfoldable pub format_like : String → String
format_like s = concat ("%" ∷ s ∷ "%" ∷ [])

unfoldable pub like : String → Arg
unfolding format_like
like s = str (format_like s)

-- A condition with a placeholder for each of some values, where there are any.
unfoldable pub some_of : String → String → String → List Arg → Piece
unfolding submissions_only
some_of opening separator closing [] = nothing
some_of opening separator closing (a ∷ rest) =
    submissions_only (concat (opening ∷ repeat separator (length rest) ∷ closing ∷ []) ∷ [])
      (a ∷ rest)

unfoldable pub title_block : String → Piece
unfolding like
title_block s = record {
  filters = "(meta.title LIKE ? OR meta.alternate_titles LIKE ?)" ∷ [];
  master_filters = "(title LIKE ? OR alternate_titles LIKE ?)" ∷ [];
  args = like s ∷ like s ∷ [];
  master_args = like s ∷ like s ∷ [];
}

-- A text of the metadata that legacy entries have too.
unfoldable pub text_block : String → String → Piece
unfolding like
text_block column s = record {
  filters = concat ("(meta." ∷ column ∷ " LIKE ?)" ∷ []) ∷ [];
  master_filters = concat ("(" ∷ column ∷ " LIKE ?)" ∷ []) ∷ [];
  args = like s ∷ [];
  master_args = like s ∷ [];
}

unfoldable pub curation_notes_block : String → Piece
unfolding like submissions_only
curation_notes_block s = submissions_only ("(meta.curation_notes LIKE ?)" ∷ []) (like s ∷ [])

-- A text of the cache row.
unfoldable pub sequence_block : String → String → Piece
unfolding like submissions_only
sequence_block column s =
    submissions_only (concat ("(submission_cache." ∷ column ∷ " LIKE ?)" ∷ []) ∷ []) (like s ∷ [])

unfoldable pub additional_applications_block : String → Piece
unfolding submissions_only
additional_applications_block s =
    submissions_only
      (concat (
          "(meta.id IS NOT NULL AND (CASE WHEN JSON_TYPE(meta.additional_applications) = 'ARRAY' THEN JSON_LENGTH(meta.additional_applications) ELSE 0 END)"
          ∷ (if str_eq s "no" then " = 0" else " > 0")
          ∷ ")"
          ∷ [])
        ∷ [])
      []

-- A status of a submission: one of two words, and a column that is null for the first.
unfoldable pub status_block : String → String → String → String → Piece
unfolding submissions_only
status_block unset set column s =
    submissions_only
      (if str_eq s unset
        then concat ("(submission_cache." ∷ column ∷ " IS NULL)" ∷ []) ∷ []
        else (if str_eq s set
            then concat ("(submission_cache." ∷ column ∷ " IS NOT NULL)" ∷ []) ∷ []
            else []))
      []

-- A status that one user has set. The argument is appended whatever the word is.
unfoldable pub mark_block : String → String → String → Arg → String → Piece
unfolding submissions_only
mark_block unset set column user s =
    submissions_only
      (if str_eq s unset
        then concat ("(COALESCE(FIND_IN_SET(?, submission_cache." ∷ column ∷ "), 0) = 0)" ∷ []) ∷ []
        else (if str_eq s set
            then concat ("(FIND_IN_SET(?, submission_cache." ∷ column ∷ ") > 0)" ∷ []) ∷ []
            else []))
      (user ∷ [])

-- The same for the user of the filter, whose id is read through a pointer.
unfoldable pub user_mark_block :
    (ℤ → String) → String → String → String → Option ℤ → Option String → Result Piece
unfolding mark_block
user_mark_block format_int unset set column user none = ok nothing
user_mark_block format_int unset set column none (some s) = err panic
user_mark_block format_int unset set column (some id) (some s) =
    ok (mark_block unset set column (str (format_int id)) s)

unfoldable pub extreme_block : String → Piece
extreme_block s = record {
  filters = "(meta.extreme = ?)" ∷ [];
  master_filters = "(extreme = ?)" ∷ [];
  args = str s ∷ [];
  master_args = str s ∷ [];
}

unfoldable pub last_uploader_block : ℤ → String → Piece
unfolding submissions_only
last_uploader_block uid s =
    if str_eq s "yes"
    then submissions_only ("(newest_file.fk_user_id != ?)" ∷ []) (int uid ∷ [])
    else submissions_only [] []

unfoldable pub subscribed_block : ℤ → String → Piece
unfolding submissions_only
subscribed_block uid s =
    submissions_only
      (if str_eq s "yes"
        then "EXISTS (SELECT 1 FROM submission_notification_subscription sns WHERE sns.fk_submission_id = submission.id AND sns.fk_user_id = ?)"
          ∷ []
        else "NOT EXISTS (SELECT 1 FROM submission_notification_subscription sns WHERE sns.fk_submission_id = submission.id AND sns.fk_user_id = ?)"
          ∷ [])
      (int uid ∷ [])

unfoldable pub content_change_block : String → Piece
unfolding submissions_only
content_change_block s =
    submissions_only
      ((if str_eq s "yes" then "(meta.game_exists = true)" else "(meta.game_exists = false)") ∷ [])
      []

unfoldable pub frozen_block : String → Piece
unfolding submissions_only
frozen_block s =
    submissions_only
      (if str_eq s "no"
        then "(submission.frozen_at IS NULL)" ∷ []
        else (if str_eq s "yes" then "(submission.frozen_at IS NOT NULL)" ∷ [] else []))
      []
