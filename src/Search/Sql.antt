-- ===== src/Search/Sql.antt =====
-- The text of the search query, in pieces: `submissionSearchFrom` and `submissionSearchPageQuery` of
-- database/submission_search_query.go. `contains` is strings.Contains.
use package.text.Mathlib.Text.{◌==◌ as str_eq}
use flashpoint_submission_sy.Prelude.{String, Bool, ◌||◌, List, [], ◌∷◌, ◌++◌, map, if◌then◌else◌}
use flashpoint_submission_sy.Search.Placeholders.{concat, join}

unfoldable pub only : Bool → String → String
only needed sql = if needed then sql else ""

-- The table that the rows come from, before any join.
unfoldable pub base_from : Bool → String
base_from search_comments =
    if search_comments
    then " FROM (\n\t\t\tSELECT DISTINCT search_comment.fk_submission_id\n\t\t\tFROM comment search_comment IGNORE INDEX FOR GROUP BY (fk_submission_id)\n\t\t\tWHERE search_comment.deleted_at IS NULL\n\t\t\tAND LOCATE(LOWER(?), LOWER(search_comment.message) COLLATE utf8mb4_bin) > 0\n\t\t) comment_matches JOIN submission ON submission.id = comment_matches.fk_submission_id"
    else " FROM submission"

-- A text, with whether it names the column of a table.
module _ (contains : String → String → Bool) where
  unfoldable pub needs_meta : String → Bool
  needs_meta e = contains e "meta."

  unfoldable pub needs_newest : String → Bool
  unfolding needs_meta
  needs_newest e = needs_meta e || contains e "newest_file."

  unfoldable pub needs_oldest : String → Bool
  needs_oldest e = contains e "uploader." || contains e "oldest_file."

  unfoldable pub needs_comment : String → Bool
  needs_comment e = contains e "updater." || contains e "newest_comment."

  unfoldable pub needs_cache : String → Bool
  unfolding needs_newest needs_oldest needs_comment
  needs_cache e =
      needs_newest e || needs_oldest e || needs_comment e || contains e "submission_cache."

  -- The joins that the expressions need.
  unfoldable pub joins : String → List String
  unfolding only needs_meta needs_newest needs_oldest needs_comment needs_cache
  joins e =
      only (needs_cache e)
        " LEFT JOIN submission_cache ON submission_cache.fk_submission_id = submission.id"
      ∷ only (needs_oldest e)
          " LEFT JOIN submission_file oldest_file ON oldest_file.id = submission_cache.fk_oldest_file_id"
      ∷ only (needs_newest e)
          " LEFT JOIN submission_file newest_file ON newest_file.id = submission_cache.fk_newest_file_id"
      ∷ only (needs_comment e)
          " LEFT JOIN comment newest_comment ON newest_comment.id = submission_cache.fk_newest_comment_id"
      ∷ only (contains e "uploader.")
          " LEFT JOIN discord_user uploader ON uploader.id = oldest_file.fk_user_id"
      ∷ only (contains e "updater.")
          " LEFT JOIN discord_user updater ON updater.id = newest_comment.fk_user_id"
      ∷ only (needs_meta e)
          " LEFT JOIN curation_meta meta ON meta.fk_submission_file_id = newest_file.id"
      ∷ []

  unfoldable pub search_from : String → Bool → String
  unfolding base_from joins
  search_from e search_comments = concat (base_from search_comments ∷ joins e)

pub record Order : Type 0 where
  pub sort : String
  pub legacy_sort : String

-- `orders[order]`: the map's zero value for a name that it does not have.
unfoldable pub orders : String → Order
orders order =
    if str_eq order "created_at"
    then record { sort = "oldest_file.created_at"; legacy_sort = "date_added" }
    else if str_eq order "updated_at"
    then record { sort = "newest_comment.created_at"; legacy_sort = "date_modified" }
    else if str_eq order "newest_file_size"
    then record { sort = "newest_file.size"; legacy_sort = "42" }
    else if str_eq order "meta_title"
    then record { sort = "meta.title"; legacy_sort = "title" }
    else if str_eq order "meta_platform"
    then record { sort = "meta.platform"; legacy_sort = "platform" }
    else if str_eq order "meta_library"
    then record { sort = "meta.library"; legacy_sort = "library" }
    else record { sort = ""; legacy_sort = "" }

abbrev pub cache_columns : List String
cache_columns =
    "fk_oldest_file_id" ∷ "fk_newest_file_id" ∷ "fk_newest_comment_id" ∷ "bot_action"
    ∷ "active_assigned_testing_ids" ∷ "active_assigned_verification_ids"
    ∷ "active_requested_changes_ids" ∷ "active_approved_ids" ∷ "active_verified_ids"
    ∷ "distinct_actions" ∷ []

-- A column of the page: its name, and its value for a submission and for a legacy entry.
pub record Column : Type 0 where
  pub alias : String
  pub value : String
  pub legacy : String

abbrev pub column : String → String → String → Column
column alias value legacy = record { alias = alias; value = value; legacy = legacy }

abbrev pub columns : List Column
columns =
    column "submission_id" "submission.id" "-1"
    ∷ column "submission_level"
        "(SELECT name FROM submission_level WHERE id = submission.fk_submission_level_id)"
        "'legacy'"
    ∷ column "uploader_id" "uploader.id" "-1"
    ∷ column "uploader_username" "uploader.username" "'legacy'"
    ∷ column "uploader_avatar" "uploader.avatar" "'legacy'"
    ∷ column "updater_id" "updater.id" "-1"
    ∷ column "updater_username" "updater.username" "'legacy'"
    ∷ column "updater_avatar" "updater.avatar" "'legacy'"
    ∷ column "newest_file_id" "newest_file.id" "-1"
    ∷ column "newest_file_original_filename" "newest_file.original_filename" "'legacy'"
    ∷ column "newest_file_current_filename" "newest_file.current_filename" "'legacy'"
    ∷ column "newest_file_size" "newest_file.size" "42"
    ∷ column "created_at" "oldest_file.created_at" "legacy.date_added"
    ∷ column "updated_at" "newest_comment.created_at" "legacy.date_modified"
    ∷ column "newest_file_user_id" "newest_file.fk_user_id" "-1"
    ∷ column "meta_title" "meta.title" "legacy.title"
    ∷ column "meta_alternate_titles" "meta.alternate_titles" "legacy.alternate_titles"
    ∷ column "meta_platform" "meta.platform" "legacy.platform"
    ∷ column "meta_launch_command" "meta.launch_command" "legacy.launch_command"
    ∷ column "meta_library" "meta.library" "legacy.library"
    ∷ column "meta_extreme" "meta.extreme" "legacy.extreme"
    ∷ column "bot_action" "page.bot_action" "'legacy'"
    ∷ column "file_count"
        "(SELECT NULLIF(COUNT(*), 0) FROM submission_file count_file WHERE count_file.fk_submission_id = submission.id AND count_file.deleted_at IS NULL)"
        "0"
    ∷ column "active_assigned_testing_ids" "page.active_assigned_testing_ids" "''"
    ∷ column "active_assigned_verification_ids" "page.active_assigned_verification_ids" "''"
    ∷ column "active_requested_changes_ids" "page.active_requested_changes_ids" "''"
    ∷ column "active_approved_ids" "page.active_approved_ids" "''"
    ∷ column "active_verified_ids" "page.active_verified_ids" "''"
    ∷ column "distinct_actions" "page.distinct_actions" "'mark-added'"
    ∷ column "meta_game_exists" "meta.game_exists" "TRUE"
    ∷ column "frozen_at" "submission.frozen_at" "NULL"
    ∷ column "should_autofreeze" "submission.should_autofreeze" "FALSE"
    ∷ []

abbrev pub select_column : Column → String
select_column c = concat (
    "CASE WHEN page.game_uuid IS NULL THEN " ∷ c.value ∷ " ELSE " ∷ c.legacy ∷ " END AS " ∷ c.alias
    ∷ [])

unfoldable pub selects : Bool → String
selects include_count =
    join
      (map select_column columns
        ++ ("page.game_uuid" ∷ (if include_count then "page.matched_count" ∷ [] else [])))
      ", "

unfoldable pub counted_rows : String → List String
counted_rows page =
    "SELECT matches.*, COUNT(*) OVER () AS matched_count FROM (" ∷ page ∷ ") matches" ∷ []

-- The page, with the number of all matches where it is asked for.
unfoldable pub matches : Bool → String → String
unfolding counted_rows
matches include_count page = if include_count then concat (counted_rows page) else page

-- What the query mentions of its tables.
unfoldable pub expressions : String → String → String
unfolding orders
expressions predicates order =
    concat (predicates ∷ " " ∷ (orders order).sort ∷ " submission_cache." ∷ [])

module _ (contains : String → String → Bool) where
  unfoldable pub meta_id : String → String
  meta_id e = if contains e "meta." then "meta.id" else "NULL"

  unfoldable pub meta_join : String → String
  meta_join e =
      if contains e "meta."
      then "meta.id = page.meta_id"
      else "meta.fk_submission_file_id = newest_file.id"

  -- The rows of the page: matching submissions and legacy entries.
  unfoldable pub page_rows : String → String → String → String → Bool → List String
  unfolding orders search_from expressions meta_id
  page_rows predicates where_part legacy_where order search_comments =
      "SELECT submission.id AS submission_id, NULL AS game_uuid, "
      ∷ meta_id (expressions predicates order)
      ∷ " AS meta_id, "
      ∷ (orders order).sort
      ∷ " AS sort_value"
      ∷ concat (map (λ c. concat (", submission_cache." ∷ c ∷ [])) cache_columns)
      ∷ search_from contains (expressions predicates order) search_comments
      ∷ where_part
      ∷ " GROUP BY submission.id\n\t\tUNION ALL SELECT -1, uuid, NULL, "
      ∷ (orders order).legacy_sort
      ∷ concat (map (λ (c : String). ", NULL") cache_columns)
      ∷ " FROM masterdb_game"
      ∷ legacy_where
      ∷ []

  -- The whole query.
  unfoldable pub page_query : String → String → String → String → String → Bool → Bool → List String
  unfolding page_rows matches selects expressions meta_join
  page_query predicates where_part legacy_where order direction include_count search_comments =
      "SELECT "
      ∷ selects include_count
      ∷ " FROM ("
      ∷ matches include_count
          (concat (page_rows predicates where_part legacy_where order search_comments))
      ∷ " ORDER BY sort_value "
      ∷ direction
      ∷ ", submission_id ASC, game_uuid ASC LIMIT ? OFFSET ?"
      ∷ ") page\n\t\tLEFT JOIN submission ON submission.id = page.submission_id\n\t\tLEFT JOIN submission_file oldest_file ON oldest_file.id = page.fk_oldest_file_id\n\t\tLEFT JOIN submission_file newest_file ON newest_file.id = page.fk_newest_file_id\n\t\tLEFT JOIN comment newest_comment ON newest_comment.id = page.fk_newest_comment_id\n\t\tLEFT JOIN discord_user uploader ON uploader.id = oldest_file.fk_user_id\n\t\tLEFT JOIN discord_user updater ON updater.id = newest_comment.fk_user_id\n\t\tLEFT JOIN curation_meta meta ON "
      ∷ meta_join (expressions predicates order)
      ∷ "\n\t\tLEFT JOIN masterdb_game legacy ON legacy.uuid = page.game_uuid\n\t\tGROUP BY page.submission_id, page.game_uuid\n\t\tORDER BY page.sort_value "
      ∷ direction
      ∷ ", page.submission_id ASC, page.game_uuid ASC"
      ∷ []
