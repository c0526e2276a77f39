-- ===== src/Comments/Trace.antt =====
-- What the calls of the comment receiver (service/siteservice_comments.go) do to the rows of the
-- submissions and to the events.
use mathlib.Core.Path.{subst}
use flashpoint_submission_sy.Prelude.{
  ℕ, ◌≡◌, ◌∙◌, Bool, true, false, Option, String, List, ok, arith,
}
use flashpoint_submission_sy.Constants.Actions.{Action}
use flashpoint_submission_sy.Review.Submission.{ExtendedSubmission}
use flashpoint_submission_sy.Review.Row.{Submission}
use flashpoint_submission_sy.Database.Session.{
  Session, CommentEvent, Notification, Tx, ◌>>=◌, pure, dal_call, now, modify_db,
  get_discord_user_roles, is_user_subscribed_to_submission, subscribe_user_to_submission,
  get_users_for_notification, is_notified_of, store_notification,
}
use flashpoint_submission_sy.Comments.{
  Environment, skip, when, create_notification, create_freeze_notification, final_message,
  subscribe,
}
use flashpoint_submission_sy.Comments.Effect.{bind_inv}

-- The part of a session that the events are about.
pub record Trace : Type 0 where
  pub rows : List Submission
  pub events : List CommentEvent
  pub opened : Bool

abbrev pub trace : Session → Trace
trace w = record { rows = w.db.submissions; events = w.events; opened = w.pg_open }

-- Where the call succeeds, it leads from the one predicate to the other.
abbrev pub Leads : {A : Type 0} → Tx A → (Trace → Type 0) → (Trace → Type 0) → Type 0
Leads {A} m P Q = (w w' : Session) (a : A) → m w ≡ ok (a, w') → P (trace w) → Q (trace w')

-- The call leaves rows and events alone.
abbrev pub Still : {A : Type 0} → Tx A → Type 0
Still {A} m = (w w' : Session) (a : A) → m w ≡ ok (a, w') → trace w ≡ trace w'

pub Leads-bind :
    {A B : Type 0} (m : Tx A) (f : A → Tx B) (P Q R : Trace → Type 0)
    → Leads m P Q
    → ((a : A) → Leads (f a) Q R)
    → Leads (m >>= f) P R
Leads-bind m f P Q R hm hf w w' b e p =
    let (a, (v, e1, e2)) = bind_inv m f w w' b e in hf a v w' b e2 (hm w v a e1 p)

pub Still-Leads : {A : Type 0} (m : Tx A) (P : Trace → Type 0) → Still m → Leads m P P
Still-Leads m P h w w' a e p = subst P (h w w' a e) p

pub Still-bind :
    {A B : Type 0} (m : Tx A) (f : A → Tx B) → Still m → ((a : A) → Still (f a)) → Still (m >>= f)
Still-bind m f hm hf w w' b e =
    let (a, (v, e1, e2)) = bind_inv m f w w' b e in hm w v a e1 ∙ hf a v w' b e2

pub skip-Still : Still skip
unfolding skip pure
skip-Still w w' a e = ground arith

pub when-Still : (b : Bool) (m : Tx (Unit {0})) → Still m → Still (when b m)
unfolding when
when-Still true m h = h
when-Still false m h = skip-Still

pub when-Leads :
    (b : Bool) (m : Tx (Unit {0})) (P : Trace → Type 0) → Leads m P P → Leads (when b m) P P
unfolding when
when-Leads true m P h = h
when-Leads false m P h = Still-Leads skip P skip-Still

pub dal_call-Still : Still dal_call
unfolding dal_call
dal_call-Still w w' a e = ground arith

pub now-Still : (clock : ℕ → ℕ) → Still (now clock)
unfolding now
now-Still clock w w' a e = ground arith

pub get_discord_user_roles-Still : (uid : ℕ) → Still (get_discord_user_roles uid)
unfolding get_discord_user_roles
get_discord_user_roles-Still uid = Still-bind dal_call _ dal_call-Still (λ u w w' a e. ground arith)

pub is_user_subscribed_to_submission-Still :
    (uid sid : ℕ) → Still (is_user_subscribed_to_submission uid sid)
unfolding is_user_subscribed_to_submission
is_user_subscribed_to_submission-Still uid sid =
    Still-bind dal_call _ dal_call-Still (λ u w w' a e. ground arith)

pub subscribe_user_to_submission-Still :
    (uid sid : ℕ) → Still (subscribe_user_to_submission uid sid)
unfolding subscribe_user_to_submission modify_db
subscribe_user_to_submission-Still uid sid =
    Still-bind dal_call _ dal_call-Still (λ u w w' a e. ground arith)

pub get_users_for_notification-Still :
    (uid sid : ℕ) (a : Action) → Still (get_users_for_notification uid sid a)
unfolding get_users_for_notification
get_users_for_notification-Still uid sid b =
    Still-bind dal_call _ dal_call-Still (λ u w w' a e. ground arith)

pub is_notified_of-Still : (uid : ℕ) (a : Action) → Still (is_notified_of uid a)
unfolding is_notified_of
is_notified_of-Still uid b = Still-bind dal_call _ dal_call-Still (λ u w w' a e. ground arith)

pub store_notification-Still : (n : Notification) → Still (store_notification n)
unfolding store_notification modify_db
store_notification-Still n = Still-bind dal_call _ dal_call-Still (λ u w w' a e. ground arith)

pub create_notification-Still :
    (author sid : ℕ) (a : Action) → Still (create_notification author sid a)
unfolding create_notification
create_notification-Still author sid a = when-Still _ _ (
    Still-bind _ _ (get_users_for_notification-Still author sid a)
      (λ users. when-Still _ _ (store_notification-Still _)))

pub create_freeze_notification-Still :
    (author deleter sid : ℕ) → Still (create_freeze_notification author deleter sid)
unfolding create_freeze_notification
create_freeze_notification-Still author deleter sid =
    Still-bind _ _ (is_notified_of-Still author _)
      (λ notified. when-Still _ _ (store_notification-Still _))

pub subscribe-Still : (env : Environment) (uid sid : ℕ) → Still (subscribe env uid sid)
unfolding subscribe
subscribe-Still env uid sid =
    Still-bind _ _ (is_user_subscribed_to_submission-Still uid sid)
      (λ b. when-Still _ _ (subscribe_user_to_submission-Still uid sid))

pub final_message-Still :
    (env : Environment) (a : Action) (m : Option String) (s : ExtendedSubmission)
    → Still (final_message env a m s)
unfolding final_message
final_message-Still env a m s w w' x e = ground arith
