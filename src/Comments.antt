-- ===== src/Comments.antt =====
-- service/siteservice_comments.go: `ReceiveComments`, with `createNotification` and
-- `createFreezeNotification` (service/notifications.go).
pub mod Effect
pub mod Accept
pub mod Refinement
pub mod Rounds
pub mod Batch
pub mod Receive
pub mod Form
pub mod Guards
pub mod Atomicity
pub mod Found
pub mod Trace
pub mod Recorded
pub mod Traced
pub mod Events
pub mod Soundness
use Prim.Native.String.{◌++◌}
use flashpoint_submission_sy.Prelude.{
  ℕ, ◌+◌, Bool, true, false, ◌&&◌, ◌||◌, not, Option, none, some, String, List, [], ◌∷◌, Result,
  Error, ok, err, perr, text, forbidden, if◌then◌else◌, ◌==◌, length,
}
use flashpoint_submission_sy.Constants.Actions.{
  Action, approve, request_changes, mark_added, verify, assign_testing, unassign_testing,
  assign_verification, unassign_verification, reject, system, same_action, action_in,
  get_actions_with_notification,
}
use flashpoint_submission_sy.Constants.Roles.{is_freezer}
use flashpoint_submission_sy.Review.Submission.{ExtendedSubmission}
use flashpoint_submission_sy.Review.Validator.{is_action_valid_for_submission}
use flashpoint_submission_sy.Review.Row.{system_id}
use flashpoint_submission_sy.Database.Session.{
  Tx, ◌>>=◌, ◌>>◌, pure, raise, dal_call, now, action_notification, freeze_notification,
  dal_store_comment, emit_submission_comment_event, get_discord_user_roles,
  is_user_subscribed_to_submission, subscribe_user_to_submission, get_users_for_notification,
  is_notified_of, store_notification, dal_freeze_submission, dal_update_submission_cache_table,
}

-- What the receiver takes from outside: the clock, `strings.TrimSpace`, and the import into
-- Flashpoint (`AddSubmissionToFlashpoint`), which yields the id of the game or an error; and of a
-- commit that returns an error, whether the server had committed before the connection broke.
pub record Environment : Type 0 where
  pub clock : ℕ → ℕ
  pub trim_space : String → String
  pub add_submission_to_flashpoint : ExtendedSubmission → Result String
  pub mysql_had_committed : Bool
  pub postgres_had_committed : Bool

unfoldable pub skip : Tx (Unit {0})
unfolding pure
skip = pure tt

unfoldable pub when : Bool → Tx (Unit {0}) → Tx (Unit {0})
unfolding skip
when true m = m
when false m = skip

-- `createNotification`
unfoldable pub create_notification : ℕ → ℕ → Action → Tx (Unit {0})
create_notification author sid a = when (action_in a get_actions_with_notification) (
    get_users_for_notification author sid a >>= λ users.
    when (not (length users == 0)) (store_notification (action_notification a author sid users)))

-- `createFreezeNotification`
unfoldable pub create_freeze_notification : ℕ → ℕ → ℕ → Tx (Unit {0})
create_freeze_notification author deleter sid = is_notified_of author mark_added >>= λ notified.
    when notified (store_notification (freeze_notification author deleter sid))

-- The assignments, whose comments have no message.
abbrev pub is_assignment : Action → Bool
is_assignment a =
    action_in a
      (assign_testing ∷ unassign_testing ∷ assign_verification ∷ unassign_verification ∷ [])

-- The actions that subscribe the commenter.
abbrev pub is_subscribing : Action → Bool
is_subscribing a = is_assignment a || action_in a (approve ∷ request_changes ∷ verify ∷ reject ∷ [])

-- `c.Message`, trimmed by `StoreComment`.
unfoldable pub stored_message : (String → String) → Action → Option String → Option String
stored_message trim a none = none
stored_message trim a (some m) = if is_assignment a then none else some (trim m)

-- `StoreComment` and the event of the comment.
unfoldable pub post : ℕ → ℕ → Action → Option String → ℕ → Tx (Unit {0})
post sid uid a message t = dal_store_comment sid uid a message t >>= λ cid.
    emit_submission_comment_event
      (record { author_id = uid; submission_id = sid; comment_id = cid; action = a })

module _ (env : Environment) where
  -- The live metadata is updated before a comment that marks as added.
  unfoldable pub final_message : Action → Option String → ExtendedSubmission → Tx (Option String)
  final_message mark_added message s w = elim (env.add_submission_to_flashpoint s) [
    | ok game ↦ ok (some ("Marked the submission as added to Flashpoint. Game ID: " ++ game), w)
    | err e ↦ err e
  ]
  final_message _ message s w = ok (message, w)

  -- The PostgreSQL session is opened at the first comment of the batch.
  unfoldable pub open_pg : Tx (Unit {0})
  open_pg w = elim w.pg_open [
    | true ↦ ok (tt, w)
    | false ↦ (dal_call >> λ w'. ok (tt, record w' { pg_open = true })) w
  ]

  unfoldable pub subscribe : ℕ → ℕ → Tx (Unit {0})
  subscribe uid sid = is_user_subscribed_to_submission uid sid >>= λ subscribed.
      when (not subscribed) (subscribe_user_to_submission uid sid)

  -- `unassign if needed`
  unfoldable pub post_unassign : ℕ → Action → ℕ → Tx (Unit {0})
  post_unassign uid approve sid = now env.clock >>= λ t. post sid uid unassign_testing none (t + 1)
  post_unassign uid verify sid =
      now env.clock >>= λ t. post sid uid unassign_verification none (t + 1)
  post_unassign uid _ sid = skip

  -- `freeze the curation if it autofreeze is true`
  unfoldable pub post_autofreeze : ℕ → Action → ExtendedSubmission → Tx (Unit {0})
  unfolding create_freeze_notification
  post_autofreeze uid a s = when (same_action a verify && s.should_autofreeze) (
      dal_freeze_submission s.submission_id
      >> create_freeze_notification s.submitter_id uid s.submission_id
      >> now env.clock
      >>= λ t.
          post s.submission_id system_id system
            (some (env.trim_space "This submission has been automatically frozen.")) (t + 2))

  -- The body of the loop behind the validation.
  unfoldable pub accept : ℕ → Action → Option String → ExtendedSubmission → Tx (Unit {0})
  unfolding final_message open_pg subscribe post_unassign post_autofreeze create_notification
  accept uid a message s = final_message a message s >>= λ m. open_pg >> now env.clock >>= λ t.
      when (is_subscribing a) (subscribe uid s.submission_id)
      >> post s.submission_id uid a (stored_message env.trim_space a m) t
      >> post_unassign uid a s.submission_id
      >> create_notification uid s.submission_id a
      >> post_autofreeze uid a s
      >> dal_update_submission_cache_table s.submission_id

  -- What follows on the validator's verdict: `continue` where refusals are ignored.
  unfoldable pub settle :
      ℕ → Action → Option String → Bool → ExtendedSubmission → Option Error → Tx (Unit {0})
  unfolding accept
  settle uid a message ignore_dupes s none = accept uid a message s
  settle uid a message ignore_dupes s (some e) = when (not ignore_dupes) (raise e)

  -- One round of the loop over the submissions that were found.
  unfoldable pub review_one : ℕ → Action → Option String → Bool → ExtendedSubmission → Tx (Unit {0})
  unfolding settle
  review_one uid a message ignore_dupes s =
      when s.is_frozen (
        get_discord_user_roles uid >>= λ roles.
        when (not (is_freezer roles)) (raise (perr (text "submission is frozen") forbidden)))
      >> settle uid a message ignore_dupes s (is_action_valid_for_submission uid a s)

  unfoldable pub review_each :
      ℕ → Action → Option String → Bool → List ExtendedSubmission → Tx (Unit {0})
  unfolding review_one
  review_each uid a message ignore_dupes [] = skip
  review_each uid a message ignore_dupes (s ∷ ss) =
      let rest = review_each uid a message ignore_dupes ss in
      review_one uid a message ignore_dupes s >> rest
