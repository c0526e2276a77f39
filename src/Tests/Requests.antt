-- ===== src/Tests/Requests.antt =====
-- The theorems on the comment receiver, at a request that approves the sample submission.
use flashpoint_submission_sy.Review.Cache.{
  update_submission_cache_table, get_bot_action, get_distinct_actions,
  get_user_count_with_enabled_action,
}
use flashpoint_submission_sy.Database.Search.{
  search_submissions, selected, selected_rows, order_rows, insert_row, scan_rows,
}
use flashpoint_submission_sy.Database.Locks.{
  is_active, lock_submissions, lock_each, lock_one, lock_order, sort, insert_sorted, compact,
}
use flashpoint_submission_sy.Comments.Guards.{receive_comments-success}
use flashpoint_submission_sy.Review.Submission.{uid_in}
use flashpoint_submission_sy.Prelude.{
  ℕ, ◌+◌, ◌≡◌, ◌≢◌, ◌⊎◌, ◌↔◌, refl, true, false, none, some, String, [], ◌∷◌, ok, arith, All, err,
  Option, List,
}
use flashpoint_submission_sy.Constants.Actions.{approve, mark_added, reject}
use flashpoint_submission_sy.Constants.Roles.{is_freezer, tester as tester_role}
use flashpoint_submission_sy.Review.Tables.{newest_file, oldest_file, newest_comment}
use flashpoint_submission_sy.Review.Validator.{is_action_valid_for_submission, marked_added}
use flashpoint_submission_sy.Review.Row.{
  reviewed, uploaded, unassign, autofreeze, refresh_cache, store_comment, store_submission_file,
  update_autofreeze, scan_row, scan_columns,
}
use flashpoint_submission_sy.Review.Row.Refinement.{Ready}
use flashpoint_submission_sy.Review.Row.Invariant.{Sound}
use flashpoint_submission_sy.Database.Session.{
  Session, modify_submission, ◌>>=◌, dal_call, now, is_user_subscribed_to_submission,
  subscribe_user_to_submission, dal_store_comment, emit_submission_comment_event,
  get_users_for_notification, users_for_notification, dal_update_submission_cache_table, pure,
  raise, get_db,
}
use flashpoint_submission_sy.Comments.{
  Environment, stored_message, review_one, when, post, skip, review_each, settle,
}
use flashpoint_submission_sy.Comments.Effect.{view}
use flashpoint_submission_sy.Comments.Refinement.{stamps}
use flashpoint_submission_sy.Comments.Rounds.{review_one-reviewed}
use flashpoint_submission_sy.Comments.Receive.{
  CommentForm, Store, receive_comments, begin, check_form, is_missing, process_batch, finish,
  message_of, guard, check_found, commit, commit_mysql,
}
use flashpoint_submission_sy.Comments.Atomicity.{IsCommitted}
use flashpoint_submission_sy.Comments.Recorded.{IsRecorded}
use flashpoint_submission_sy.Comments.Events.{AreBelow, receive_comments-IsRecorded}
use flashpoint_submission_sy.Comments.Form.{MaySend, check_form_iff}
use flashpoint_submission_sy.Comments.Soundness.{receive_comments-Sound}
use flashpoint_submission_sy.Tests.Rows.{tester, assigned_row, assigned_scan}
use flashpoint_submission_sy.Tests.Reviews.{assigned_row-Sound}

abbrev env : Environment
env = record {
  clock = λ n. 300 + n;
  trim_space = λ s. s;
  add_submission_to_flashpoint = λ s. ok "game";
  mysql_had_committed = true;
  postgres_had_committed = false;
}

abbrev store : Store
store = record {
  db = record {
    submissions = assigned_row ∷ [];
    subscriptions = [];
    notification_settings = (10, approve) ∷ [];
    notifications = [];
    user_roles = λ uid. tester_role ∷ [];
    next_comment_id = 4;
  };
  events = [];
}

abbrev form : CommentForm
form = record { action = approve; message = ""; ignore_dupe_actions = "" }

assigned_row_settled : (n : ℕ) → Ready assigned_row (300 + n)
unfolding newest_file update_autofreeze uploaded reviewed unassign autofreeze refresh_cache
    store_comment store_submission_file
assigned_row_settled n = record {
  comments_before = ground arith;
  file_before = λ f e. ground arith;
  has_file = λ e. cc;
}

receive_comments-Sound_example :
    All Sound (receive_comments env [] tester (7 ∷ []) form store).store.db.submissions
receive_comments-Sound_example =
    receive_comments-Sound env [] tester (7 ∷ []) form store (λ n. omega arith) (tt, tt)
      ((assigned_row-Sound, assigned_row_settled), tt)

store-AreBelow : AreBelow 4 store.db.submissions
unfolding reviewed unassign autofreeze refresh_cache store_comment uploaded update_autofreeze
    store_submission_file
store-AreBelow = ground arith

receive_comments-IsRecorded_example :
    IsCommitted env [] tester
      (7 ∷ [])
      form
      store
      (receive_comments env [] tester (7 ∷ []) form store)
    × All
        (IsRecorded 4 (receive_comments env [] tester (7 ∷ []) form store).store.events)
        (receive_comments env [] tester (7 ∷ []) form store).store.db.submissions
receive_comments-IsRecorded_example =
    receive_comments-IsRecorded env [] tester (7 ∷ []) form store store-AreBelow

check_form_iff_example : (check_form 2 reject (some "no") ≡ none) ↔ MaySend 2 reject (some "no")
check_form_iff_example = check_form_iff 2 reject (some "no")

-- The sessions before and after the round.
abbrev started : Session
started = begin store []

abbrev ended : Session
ended = elim (review_one env tester approve none false assigned_scan started) [
  | ok (u, w) ↦ w
  | err e ↦ started
]

round_ends : review_one env tester approve none false assigned_scan started ≡ ok (tt, ended)
unfolding review_one ◌>>=◌ when is_action_valid_for_submission marked_added uid_in dal_call now
    is_user_subscribed_to_submission subscribe_user_to_submission post dal_store_comment
    emit_submission_comment_event get_users_for_notification users_for_notification
    dal_update_submission_cache_table
round_ends = refl

review_one-reviewed_example :
    ((assigned_scan.is_frozen ≡ false) ⊎ (is_freezer (started.db.user_roles tester) ≡ true))
    × ((is_action_valid_for_submission tester approve assigned_scan ≡ none)
          × ((m : Option String) × ((approve ≡ mark_added) ⊎ (m ≡ none))
              × (ended.db.submissions
                  ≡ modify_submission assigned_scan.submission_id
                      (reviewed tester approve
                        (stored_message env.trim_space approve m)
                        assigned_scan.should_autofreeze
                        (stamps env (view started)))
                      started.db.submissions))
        ⊎ (is_action_valid_for_submission tester approve assigned_scan ≢ none)
          × (false ≡ true)
          × (ended.db.submissions ≡ started.db.submissions))
review_one-reviewed_example =
    review_one-reviewed env tester approve none false assigned_scan started ended round_ends

abbrev ids : List ℕ
ids = []

accepted_request : (receive_comments env [] tester (7 ∷ []) form store).failure ≡ none
unfolding receive_comments finish process_batch commit commit_mysql ◌>>=◌ dal_call pure raise get_db
    skip guard check_form message_of is_missing check_found lock_submissions lock_each lock_one
    lock_order sort insert_sorted compact is_active search_submissions selected selected_rows
    order_rows insert_row scan_rows scan_row scan_columns update_submission_cache_table
    get_bot_action get_distinct_actions get_user_count_with_enabled_action newest_file oldest_file
    newest_comment reviewed unassign autofreeze refresh_cache store_comment uploaded
    update_autofreeze store_submission_file review_each review_one settle when
    is_action_valid_for_submission marked_added uid_in now is_user_subscribed_to_submission
    subscribe_user_to_submission post dal_store_comment emit_submission_comment_event
    get_users_for_notification users_for_notification dal_update_submission_cache_table
accepted_request = refl

receive_comments-success_example :
    ((7 ∷ ids) ≢ [])
    × (check_form 1 approve (message_of "") ≡ none)
    × All (λ sid. is_active sid store.db.submissions ≡ true) (7 ∷ ids)
receive_comments-success_example =
    receive_comments-success env [] tester (7 ∷ ids) form store accepted_request
