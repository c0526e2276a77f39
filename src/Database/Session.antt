-- ===== src/Database/Session.antt =====
-- A MySQL transaction (`DBSession`) with the PostgreSQL one that runs beside it, and the DAL calls of
-- the comment receiver (database/mysqldal.go). A call changes the working copy; an error drops it,
-- which is the deferred rollback. Any call may fail: `faults` says which of the next ones do.
use flashpoint_submission_sy.Prelude.{
  ℕ, ◌+◌, Bool, false, ◌&&◌, not, Option, String, List, [], ◌∷◌, Result, ok, err, Error, dberr,
  if◌then◌else◌, ◌==◌, any,
}
use flashpoint_submission_sy.Constants.Actions.{Action, same_action}
use flashpoint_submission_sy.Constants.Roles.{Role}
use flashpoint_submission_sy.Review.Submission.{uid_in}
use flashpoint_submission_sy.Review.Row.{
  Submission, store_comment, refresh_cache, freeze, new_comment,
}

-- A stored notification: what its text says, and whom it mentions.
pub data Notification : Type 0 where
  action_notification : Action → ℕ → ℕ → List ℕ → Notification
  freeze_notification : ℕ → ℕ → ℕ → Notification

-- `EmitSubmissionCommentEvent`: author, submission, comment, action.
pub record CommentEvent : Type 0 where
  pub author_id : ℕ
  pub submission_id : ℕ
  pub comment_id : ℕ
  pub action : Action

pub record Database : Type 0 where
  pub submissions : List Submission
  pub subscriptions : List (ℕ × ℕ)
  pub notification_settings : List (ℕ × Action)
  pub notifications : List Notification
  pub user_roles : ℕ → List Role
  pub next_comment_id : ℕ

pub record Session : Type 0 where
  pub db : Database
  pub events : List CommentEvent
  pub pg_open : Bool
  pub readings : ℕ
  pub faults : List Bool

abbrev pub Tx : Type 0 → Type 0
Tx A = Session → Result (A × Session)

infixl 5 ◌>>=◌ ◌>>◌
unfoldable pub ◌>>=◌ : {A B : Type 0} → Tx A → (A → Tx B) → Tx B
◌>>=◌ m f w = elim (m w) [ ok (a, w') ↦ f a w' | err e ↦ err e ]

abbrev pub ◌>>◌ : {A B : Type 0} → Tx A → Tx B → Tx B
m >> k = m >>= λ _. k

unfoldable pub pure : {A : Type 0} → A → Tx A
pure a w = ok (a, w)

unfoldable pub raise : {A : Type 0} → Error → Tx A
raise e w = err e

abbrev pub is_failing : List Bool → Bool
is_failing [] = false
is_failing (b ∷ bs) = b

abbrev pub next_faults : List Bool → List Bool
next_faults [] = []
next_faults (b ∷ bs) = bs

-- One statement sent to a server.
unfoldable pub dal_call : Tx (Unit {0})
dal_call w =
    if is_failing w.faults then err dberr else ok (tt, record w { faults = next_faults w.faults })

unfoldable pub get_db : Tx Database
get_db w = ok (w.db, w)

unfoldable pub modify_db : (Database → Database) → Tx (Unit {0})
modify_db f w = ok (tt, record w { db = f w.db })

-- `s.clock.Now()`: the clock is a function of how often it was read.
unfoldable pub now : (ℕ → ℕ) → Tx ℕ
now clock w = ok (clock w.readings, record w { readings = w.readings + 1 })

-- `UPDATE ... WHERE id = ?` and the like.
unfoldable pub modify_submission : ℕ → (Submission → Submission) → List Submission → List Submission
modify_submission sid f [] = []
modify_submission sid f (r ∷ rs) = (if r.id == sid then f r else r) ∷ modify_submission sid f rs

abbrev pub update_row : ℕ → (Submission → Submission) → Database → Database
update_row sid f db = record db { submissions = modify_submission sid f db.submissions }

-- `StoreComment`, with the id of the row as `LastInsertId`.
unfoldable pub dal_store_comment : ℕ → ℕ → Action → Option String → ℕ → Tx ℕ
unfolding ◌>>=◌ dal_call
dal_store_comment sid uid a message t = dal_call >> λ w.
    let cid = w.db.next_comment_id in
    let c = new_comment cid uid a message t in
    let rows = modify_submission sid (store_comment c) w.db.submissions in
    ok (cid, record w { db = record (w.db) { submissions = rows; next_comment_id = cid + 1 } })

unfoldable pub emit_submission_comment_event : CommentEvent → Tx (Unit {0})
unfolding ◌>>=◌ dal_call modify_db
emit_submission_comment_event e = dal_call >> λ w. ok (tt, record w { events = e ∷ w.events })

-- `GetDiscordUserRoles`
unfoldable pub get_discord_user_roles : ℕ → Tx (List Role)
unfolding ◌>>=◌ dal_call modify_db
get_discord_user_roles uid = dal_call >> λ w. ok (w.db.user_roles uid, w)

abbrev same_pair : ℕ → ℕ → ℕ × ℕ → Bool
same_pair uid sid p = p.0 == uid && p.1 == sid

-- `IsUserSubscribedToSubmission`
unfoldable pub is_user_subscribed_to_submission : ℕ → ℕ → Tx Bool
unfolding ◌>>=◌ dal_call modify_db
is_user_subscribed_to_submission uid sid =
    dal_call >> λ w. ok (any (same_pair uid sid) w.db.subscriptions, w)

-- `SubscribeUserToSubmission`
unfoldable pub subscribe_user_to_submission : ℕ → ℕ → Tx (Unit {0})
unfolding ◌>>=◌ dal_call modify_db
subscribe_user_to_submission uid sid =
    dal_call >> modify_db (λ d. record d { subscriptions = (uid, sid) ∷ d.subscriptions })

-- The users of `GetUsersForNotification`: `SELECT DISTINCT` over the settings for the action whose
-- user is subscribed and is not the author.
unfoldable pub users_for_notification : List (ℕ × ℕ) → ℕ → ℕ → Action → List (ℕ × Action) → List ℕ
users_for_notification subscriptions author sid a [] = []
users_for_notification subscriptions author sid a ((uid, b) ∷ settings) =
    let rest = users_for_notification subscriptions author sid a settings in
    if same_action a b
      && any (same_pair uid sid) subscriptions
      && not (uid == author)
      && not (uid_in uid rest)
    then uid ∷ rest
    else rest

unfoldable pub get_users_for_notification : ℕ → ℕ → Action → Tx (List ℕ)
unfolding ◌>>=◌ dal_call modify_db
get_users_for_notification author sid a = dal_call >> λ w.
    ok (users_for_notification w.db.subscriptions author sid a w.db.notification_settings, w)

-- `GetNotificationSettingsByUserID`, asked for one action.
unfoldable pub is_notified_of : ℕ → Action → Tx Bool
unfolding ◌>>=◌ dal_call modify_db
is_notified_of uid a =
    dal_call >> λ w. ok (any (λ p. p.0 == uid && same_action a p.1) w.db.notification_settings, w)

unfoldable pub store_notification : Notification → Tx (Unit {0})
unfolding ◌>>=◌ dal_call modify_db
store_notification n = dal_call >> modify_db (λ d. record d { notifications = n ∷ d.notifications })

-- The DAL's `FreezeSubmission` and `UpdateSubmissionCacheTable`.
unfoldable pub dal_freeze_submission : ℕ → Tx (Unit {0})
unfolding ◌>>=◌ dal_call modify_db
dal_freeze_submission sid = dal_call >> modify_db (update_row sid freeze)

unfoldable pub dal_update_submission_cache_table : ℕ → Tx (Unit {0})
unfolding ◌>>=◌ dal_call modify_db
dal_update_submission_cache_table sid = dal_call >> modify_db (update_row sid refresh_cache)
