-- ===== src/Review/Cache.antt =====
-- database/caching.go: the row of `submission_cache` as a function of the rows of `comment` and
-- `submission_file`. `GROUP_CONCAT` over no row is NULL, which the readers take for no element, so
-- a column of ids is a list; the order inside it is left open by SQL and is not used.
pub mod Latest
pub mod Replay
pub mod Meaning
use flashpoint_submission_sy.Prelude.{
  ℕ, String, Bool, true, false, ◌&&◌, ◌||◌, not, Option, none, some, List, [], ◌∷◌, map, ltb, ◌==◌,
  if◌then◌else◌, any, keep,
}
use flashpoint_submission_sy.Constants.Actions.{
  Action, approve, request_changes, verify, upload, assign_testing, unassign_testing,
  assign_verification, unassign_verification, reject, same_action, action_in,
}
use flashpoint_submission_sy.Review.Submission.{uid_in}
use flashpoint_submission_sy.Review.Tables.{
  Comment, SubmissionFile, after, newest_comment, newest_file, oldest_file,
}

-- `constants.ValidatorID`
abbrev pub validator_id : ℕ
validator_id = 810112564787675166

-- The arguments of `getUserCountWithEnabledAction`.
pub record Query : Type 0 where
  pub enablers : List Action
  pub disablers : List Action
  pub only_from_last_file_version : Bool

abbrev pub assigned_testing_query : Query
assigned_testing_query = record {
  enablers = assign_testing ∷ [];
  disablers = unassign_testing ∷ [];
  only_from_last_file_version = false;
}

abbrev pub assigned_verification_query : Query
assigned_verification_query = record {
  enablers = assign_verification ∷ [];
  disablers = unassign_verification ∷ [];
  only_from_last_file_version = false;
}

abbrev pub requested_changes_query : Query
requested_changes_query = record {
  enablers = request_changes ∷ [];
  disablers = approve ∷ verify ∷ upload ∷ [];
  only_from_last_file_version = false;
}

abbrev pub approved_query : Query
approved_query = record {
  enablers = approve ∷ [];
  disablers = request_changes ∷ [];
  only_from_last_file_version = true;
}

abbrev pub verified_query : Query
verified_query = record {
  enablers = verify ∷ [];
  disablers = request_changes ∷ [];
  only_from_last_file_version = true;
}

-- The `WHERE` of `ranked_comment`: an active comment with one of the actions, not by the validator.
unfoldable pub is_counted : List Action → Comment → Bool
is_counted actions c =
    not (c.author_id == validator_id) && action_in c.action actions && not c.deleted

-- The row with `rn = 1` in the partition of one user.
unfoldable pub ranked_comment : List Action → ℕ → List Comment → Option Comment
unfolding is_counted
ranked_comment actions uid = newest_comment (λ c. c.author_id == uid && is_counted actions c)

-- `AND ranked_comment.created_at > last_file.created_at`; a comparison with NULL is not true.
unfoldable pub of_last_version : Bool → Option SubmissionFile → Option Comment → Option Comment
of_last_version false last_file c = c
of_last_version true (some f) (some c) = if ltb f.created_at c.created_at then some c else none
of_last_version true _ _ = none

-- The final `WHERE`, on the latest enabler of a user and the latest disabler joined to it.
unfoldable pub prevails : Option Comment → Option Comment → Bool
prevails none disabler = false
prevails (some e) none = true
prevails (some e) (some d) = after e.created_at e.id d.created_at d.id

-- Does the query return this user?
unfoldable pub is_enabled : Query → List SubmissionFile → List Comment → ℕ → Bool
unfolding ranked_comment of_last_version prevails
is_enabled q files comments uid =
    prevails
      (of_last_version q.only_from_last_file_version (newest_file files)
        (ranked_comment q.enablers uid comments))
      (of_last_version q.only_from_last_file_version (newest_file files)
        (ranked_comment q.disablers uid comments))

-- The partitions of `ranked_comment`: each author of a counted comment, once.
unfoldable pub authors : List Action → List Comment → List ℕ
unfolding is_counted
authors actions [] = []
authors actions (c ∷ cs) =
    let rest = authors actions cs in
    if is_counted actions c && not (uid_in c.author_id rest) then c.author_id ∷ rest else rest

unfoldable pub get_user_count_with_enabled_action :
    Query → List SubmissionFile → List Comment → List ℕ
unfolding is_enabled authors
get_user_count_with_enabled_action q files comments =
    keep (is_enabled q files comments) (authors q.enablers comments)

-- The active files' names and checksums.
unfoldable pub get_file_data_sequences :
    List SubmissionFile → List String × List String × List String × List String
get_file_data_sequences files =
    let active = keep (λ f. not f.deleted) files in
    (
      map (λ f. f.original_filename) active,
      map (λ f. f.current_filename) active,
      map (λ f. f.md5sum) active,
      map (λ f. f.sha256sum) active,
    )

-- The distinct actions of the active comments.
unfoldable pub get_distinct_actions : List Comment → List Action
get_distinct_actions [] = []
get_distinct_actions (c ∷ cs) =
    let rest = get_distinct_actions cs in
    if not c.deleted && not (action_in c.action rest) then c.action ∷ rest else rest

-- The action of the validator's newest active comment.
unfoldable pub get_bot_action : List Comment → Option Action
get_bot_action comments =
    elim (newest_comment (λ c. c.author_id == validator_id && not c.deleted) comments) [
      | none ↦ none
      | some c ↦ some c.action
    ]

-- The three foreign keys are kept as the rows that they name; SQL never changes those rows but for
-- their deletion, which refreshes the cache.
pub record SubmissionCache : Type 0 where
  pub newest_file : Option SubmissionFile
  pub oldest_file : Option SubmissionFile
  pub newest_comment : Option Comment
  pub active_assigned_testing_ids : List ℕ
  pub active_assigned_verification_ids : List ℕ
  pub active_requested_changes_ids : List ℕ
  pub active_approved_ids : List ℕ
  pub active_verified_ids : List ℕ
  pub file_data_sequences : List String × List String × List String × List String
  pub bot_action : Option Action
  pub distinct_actions : List Action

-- `UpdateSubmissionCacheTable`. A rejection leaves the five sets empty and one distinct action.
unfoldable pub update_submission_cache_table : List SubmissionFile → List Comment → SubmissionCache
update_submission_cache_table files comments =
    let users = λ (q : Query). get_user_count_with_enabled_action q files comments in
    let distinct = get_distinct_actions comments in
    let rejected = action_in reject distinct in
    record {
      newest_file = newest_file files;
      oldest_file = oldest_file files;
      newest_comment = newest_comment (λ c. not c.deleted) comments;
      active_assigned_testing_ids = if rejected then [] else users assigned_testing_query;
      active_assigned_verification_ids = if rejected then [] else users assigned_verification_query;
      active_requested_changes_ids = if rejected then [] else users requested_changes_query;
      active_approved_ids = if rejected then [] else users approved_query;
      active_verified_ids = if rejected then [] else users verified_query;
      file_data_sequences = get_file_data_sequences files;
      bot_action = get_bot_action comments;
      distinct_actions = if rejected then reject ∷ [] else distinct;
    }
