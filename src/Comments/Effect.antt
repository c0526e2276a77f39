-- ===== src/Comments/Effect.antt =====
-- What the calls of the comment receiver do to the rows of the submissions.
use flashpoint_submission_sy.Prelude.{
  ℕ, ◌+◌, ◌≡◌, ap, sym, ◌∙◌, Bool, true, false, Option, String, List, ok, arith, inl, inr,
  Result-cases,
}
use flashpoint_submission_sy.Constants.Actions.{Action}
use flashpoint_submission_sy.Review.Row.{
  Submission, store_comment, freeze, refresh_cache, new_comment,
}
use flashpoint_submission_sy.Database.Session.{
  Session, Tx, ◌>>=◌, ◌>>◌, pure, dal_call, now, modify_db, modify_submission, dal_store_comment,
  emit_submission_comment_event, is_user_subscribed_to_submission, subscribe_user_to_submission,
  get_users_for_notification, is_notified_of, store_notification, dal_freeze_submission,
  dal_update_submission_cache_table, Notification, CommentEvent,
}
use flashpoint_submission_sy.Comments.{skip, when, post}

-- The part of a session that the rows of the submissions depend on.
pub record View : Type 0 where
  pub rows : List Submission
  pub next_comment_id : ℕ
  pub readings : ℕ

abbrev pub view : Session → View
view w = record {
  rows = w.db.submissions;
  next_comment_id = w.db.next_comment_id;
  readings = w.readings;
}

-- Where the call succeeds, it takes the one view to the other.
abbrev pub Takes : {A : Type 0} → Tx A → View → View → Type 0
Takes {A} m t t' = (w w' : Session) (a : A) → m w ≡ ok (a, w') → view w ≡ t → view w' ≡ t'

-- The call leaves the rows alone.
abbrev pub Quiet : {A : Type 0} → Tx A → Type 0
Quiet m = (t : View) → Takes m t t

pub bind_inv :
    {A B : Type 0} (m : Tx A) (f : A → Tx B) (w w' : Session) (b : B)
    → (m >>= f) w ≡ ok (b, w')
    → (a : A) × ((v : Session) × (m w ≡ ok (a, v)) × (f a v ≡ ok (b, w')))
unfolding ◌>>=◌
bind_inv m f w w' b e = elim (Result-cases (m w)) [
  | inl (p, q) ↦ (p.0, (p.1, q, ground arith))
  | inr (x, q) ↦ absurd (ground arith)
]

pub Takes-bind :
    {A B : Type 0} (m : Tx A) (f : A → Tx B) (t t' t'' : View)
    → Takes m t t'
    → ((a : A) → Takes (f a) t' t'')
    → Takes (m >>= f) t t''
Takes-bind m f t t' t'' hm hf w w' b e h =
    let inv = bind_inv m f w w' b e in hf inv.0 inv.1.0 w' b inv.1.2 (hm w inv.1.0 inv.0 inv.1.1 h)

pub Takes-now :
    {B : Type 0} (clock : ℕ → ℕ) (f : ℕ → Tx B) (t t' : View)
    → Takes (f (clock t.readings)) (record t { readings = t.readings + 1 }) t'
    → Takes (now clock >>= f) t t'
unfolding now ◌>>=◌
Takes-now clock f t t' hf w w' b e h =
    let r : w.readings ≡ t.readings = ap (λ v. v.readings) h in
    hf (record w { readings = w.readings + 1 }) w' b
      (ap (λ n. f (clock n) (record w { readings = w.readings + 1 })) (sym r) ∙ e) (ground arith)

pub skip-Quiet : Quiet skip
unfolding skip pure
skip-Quiet t w w' a e h = ground arith

pub when-Quiet : (b : Bool) (m : Tx (Unit {0})) → Quiet m → Quiet (when b m)
unfolding when
when-Quiet true m q = q
when-Quiet false m q = skip-Quiet

pub Quiet-bind :
    {A B : Type 0} (m : Tx A) (f : A → Tx B) → Quiet m → ((a : A) → Quiet (f a)) → Quiet (m >>= f)
Quiet-bind m f hm hf t = Takes-bind m f t t t (hm t) (λ a. hf a t)

pub dal_call-Quiet : Quiet dal_call
unfolding dal_call
dal_call-Quiet t w w' a e h = ground arith

pub emit-Quiet : (e : CommentEvent) → Quiet (emit_submission_comment_event e)
unfolding emit_submission_comment_event
emit-Quiet ev = Quiet-bind dal_call _ dal_call-Quiet (λ u t w w' a e h. ground arith)

pub is_user_subscribed_to_submission-Quiet :
    (uid sid : ℕ) → Quiet (is_user_subscribed_to_submission uid sid)
unfolding is_user_subscribed_to_submission
is_user_subscribed_to_submission-Quiet uid sid =
    Quiet-bind dal_call _ dal_call-Quiet (λ u t w w' a e h. ground arith)

pub subscribe_user_to_submission-Quiet :
    (uid sid : ℕ) → Quiet (subscribe_user_to_submission uid sid)
unfolding subscribe_user_to_submission modify_db
subscribe_user_to_submission-Quiet uid sid =
    Quiet-bind dal_call _ dal_call-Quiet (λ u t w w' a e h. ground arith)

pub get_users_for_notification-Quiet :
    (uid sid : ℕ) (a : Action) → Quiet (get_users_for_notification uid sid a)
unfolding get_users_for_notification
get_users_for_notification-Quiet uid sid b =
    Quiet-bind dal_call _ dal_call-Quiet (λ u t w w' a e h. ground arith)

pub is_notified_of-Quiet : (uid : ℕ) (a : Action) → Quiet (is_notified_of uid a)
unfolding is_notified_of
is_notified_of-Quiet uid b = Quiet-bind dal_call _ dal_call-Quiet (λ u t w w' a e h. ground arith)

pub store_notification-Quiet : (n : Notification) → Quiet (store_notification n)
unfolding store_notification modify_db
store_notification-Quiet n = Quiet-bind dal_call _ dal_call-Quiet (λ u t w w' a e h. ground arith)

-- The view with the row of a submission changed.
abbrev pub change : ℕ → (Submission → Submission) → View → View
change sid f t = record t { rows = modify_submission sid f t.rows }

pub dal_freeze_submission-Takes :
    (sid : ℕ) (t : View) → Takes (dal_freeze_submission sid) t (change sid freeze t)
unfolding dal_freeze_submission modify_db
dal_freeze_submission-Takes sid t =
    Takes-bind dal_call _ t t _ (dal_call-Quiet t) (λ u w w' a e h. ground arith)

pub dal_update_submission_cache_table-Takes :
    (sid : ℕ) (t : View)
    → Takes (dal_update_submission_cache_table sid) t (change sid refresh_cache t)
unfolding dal_update_submission_cache_table modify_db
dal_update_submission_cache_table-Takes sid t =
    Takes-bind dal_call _ t t _ (dal_call-Quiet t) (λ u w w' a e h. ground arith)

-- The view after a comment is stored.
abbrev pub commented : ℕ → ℕ → Action → Option String → ℕ → View → View
commented sid uid a message at t = record {
  rows =
      modify_submission sid (store_comment (new_comment t.next_comment_id uid a message at)) t.rows;
  next_comment_id = t.next_comment_id + 1;
  readings = t.readings;
}

dal_store_comment-Takes :
    (sid uid : ℕ) (a : Action) (message : Option String) (at : ℕ) (t : View)
    → Takes (dal_store_comment sid uid a message at) t (commented sid uid a message at t)
unfolding dal_store_comment
dal_store_comment-Takes sid uid b message at t =
    Takes-bind dal_call _ t t _ (dal_call-Quiet t) (λ u w w' a e h. ground arith)

pub post-Takes :
    (sid uid : ℕ) (a : Action) (message : Option String) (at : ℕ) (t : View)
    → Takes (post sid uid a message at) t (commented sid uid a message at t)
unfolding post
post-Takes sid uid a message at t =
    Takes-bind (dal_store_comment sid uid a message at) _ t (commented sid uid a message at t) _
      (dal_store_comment-Takes sid uid a message at t) (λ cid. emit-Quiet _ _)

-- A step in front of two others.
pub Takes-assoc :
    {A B C : Type 0} (m : Tx A) (k : Tx B) (f : B → Tx C) (t t' : View)
    → Takes (m >> (k >>= f)) t t'
    → Takes (m >> k >>= f) t t'
unfolding ◌>>=◌
Takes-assoc m k f t t' h w w' c e =
    h w w' c (elim (Result-cases (m w)) [ inl (p, q) ↦ ground arith | inr (x, q) ↦ ground arith ])
