-- ===== src/Comments/Accept.antt =====
-- What one accepted action does to the rows: `accept`, step by step.
use flashpoint_submission_sy.Prelude.{
  ℕ, ◌+◌, inl, inr, Bool, true, false, ◌&&◌, not, Option, none, some, String, ok, arith, ◌==◌,
  length, Bool-cases,
}
use flashpoint_submission_sy.Constants.Actions.{
  Action, mark_added, approve, verify, unassign_testing, unassign_verification, system, same_action,
  action_in, get_actions_with_notification,
}
use flashpoint_submission_sy.Review.Submission.{ExtendedSubmission}
use flashpoint_submission_sy.Review.Row.{freeze, refresh_cache, system_id}
use flashpoint_submission_sy.Database.Session.{
  Tx, ◌>>=◌, ◌>>◌, dal_call, now, dal_freeze_submission, get_users_for_notification, is_notified_of,
  is_user_subscribed_to_submission, dal_update_submission_cache_table,
}
use flashpoint_submission_sy.Comments.{
  Environment, when, post, stored_message, is_subscribing, create_notification,
  create_freeze_notification, open_pg, subscribe, post_unassign, post_autofreeze,
}
use flashpoint_submission_sy.Comments.Effect.{
  View, Takes, Quiet, Takes-bind, Takes-now, Takes-assoc, Quiet-bind, when-Quiet, skip-Quiet,
  dal_call-Quiet, change, commented, post-Takes, dal_freeze_submission-Takes,
  dal_update_submission_cache_table-Takes, is_user_subscribed_to_submission-Quiet,
  subscribe_user_to_submission-Quiet, get_users_for_notification-Quiet, is_notified_of-Quiet,
  store_notification-Quiet,
}

create_notification-Quiet : (author sid : ℕ) (a : Action) → Quiet (create_notification author sid a)
unfolding create_notification
create_notification-Quiet author sid a = when-Quiet (action_in a get_actions_with_notification) _ (
    Quiet-bind (get_users_for_notification author sid a) _
      (get_users_for_notification-Quiet author sid a)
      (λ users. when-Quiet (not (length users == 0)) _ (store_notification-Quiet _)))

create_freeze_notification-Quiet :
    (author deleter sid : ℕ) → Quiet (create_freeze_notification author deleter sid)
unfolding create_freeze_notification
create_freeze_notification-Quiet author deleter sid =
    Quiet-bind (is_notified_of author mark_added) _ (is_notified_of-Quiet author mark_added)
      (λ notified. when-Quiet notified _ (store_notification-Quiet _))

-- The view with one more reading of the clock.
abbrev read : View → View
read t = record t { readings = t.readings + 1 }

-- The views that the steps of an accepted action lead to.
module _ (env : Environment) where
  abbrev after_unassign : ℕ → Action → ℕ → View → View
  after_unassign uid approve sid t =
      commented sid uid unassign_testing none (env.clock t.readings + 1) (read t)
  after_unassign uid verify sid t =
      commented sid uid unassign_verification none (env.clock t.readings + 1) (read t)
  after_unassign uid _ sid t = t

  abbrev pub notice : Option String
  notice = some (env.trim_space "This submission has been automatically frozen.")

  abbrev after_autofreeze : Bool → ℕ → View → View
  after_autofreeze true sid t =
      commented sid system_id system notice (env.clock t.readings + 2) (read (change sid freeze t))
  after_autofreeze false sid t = t

  opening-Quiet : Quiet (dal_call >> λ w. ok (tt, record w { pg_open = true }))
  opening-Quiet = Quiet-bind dal_call _ dal_call-Quiet (λ u t w w' a e h. ground arith)

  open_pg-Quiet : Quiet (open_pg env)
  unfolding open_pg
  open_pg-Quiet t w w' a e h = elim (Bool-cases w.pg_open) [
    | inl p ↦ ground arith
    | inr p ↦ opening-Quiet t w w' a (ground arith) h
  ]

  subscribe-Quiet : (uid sid : ℕ) → Quiet (subscribe env uid sid)
  unfolding subscribe
  subscribe-Quiet uid sid =
      Quiet-bind (is_user_subscribed_to_submission uid sid) _
        (is_user_subscribed_to_submission-Quiet uid sid)
        (λ subscribed. when-Quiet (not subscribed) _ (subscribe_user_to_submission-Quiet uid sid))

  post_unassign-Takes :
      (uid : ℕ) (a : Action) (sid : ℕ) (t : View)
      → Takes (post_unassign env uid a sid) t (after_unassign uid a sid t)
  unfolding post_unassign
  post_unassign-Takes uid approve sid t =
      Takes-now env.clock _ t _ (post-Takes sid uid unassign_testing none _ (read t))
  post_unassign-Takes uid verify sid t =
      Takes-now env.clock _ t _ (post-Takes sid uid unassign_verification none _ (read t))
  post_unassign-Takes uid _ sid t = skip-Quiet t

  -- The steps of an automatic freeze, in a test.
  freezing-Takes :
      (author deleter sid : ℕ) (b : Bool) (t : View)
      → Takes
          (when b (
            dal_freeze_submission sid
            >> create_freeze_notification author deleter sid
            >> now env.clock
            >>= λ at. post sid system_id system notice (at + 2)))
          t
          (after_autofreeze b sid t)
  unfolding when
  freezing-Takes author deleter sid true t =
      let t1 = change sid freeze t in
      Takes-assoc (dal_freeze_submission sid >> create_freeze_notification author deleter sid)
        (now env.clock) _ t _
        (Takes-bind _ _ t t1 _
          (Takes-bind _ _ t t1 t1 (dal_freeze_submission-Takes sid t)
            (λ u. create_freeze_notification-Quiet author deleter sid t1))
          (λ u. Takes-now env.clock _ t1 _ (post-Takes sid system_id system notice _ (read t1))))
  freezing-Takes author deleter sid false t = skip-Quiet t

  post_autofreeze-Takes :
      (uid : ℕ) (a : Action) (s : ExtendedSubmission) (t : View)
      → Takes
          (post_autofreeze env uid a s)
          t
          (after_autofreeze (same_action a verify && s.should_autofreeze) s.submission_id t)
  unfolding post_autofreeze
  post_autofreeze-Takes uid a s t =
      freezing-Takes s.submitter_id uid s.submission_id
        (same_action a verify && s.should_autofreeze) t

  -- The view that an accepted action leads to, with its message as it is stored.
  abbrev pub accepted : ℕ → Action → Option String → ExtendedSubmission → View → View
  accepted uid a message s t =
      let sid : ℕ = s.submission_id in
      let t1 : View = commented sid uid a message (env.clock t.readings) (read t) in
      let t2 : View = after_unassign uid a sid t1 in
      change sid refresh_cache
        (after_autofreeze (same_action a verify && s.should_autofreeze) sid t2)

  -- The steps behind the final message.
  unfoldable pub steps : ℕ → Action → Option String → ExtendedSubmission → Tx (Unit {0})
  steps uid a m s = open_pg env >> now env.clock >>= λ t.
      when (is_subscribing a) (subscribe env uid s.submission_id)
      >> post s.submission_id uid a (stored_message env.trim_space a m) t
      >> post_unassign env uid a s.submission_id
      >> create_notification uid s.submission_id a
      >> post_autofreeze env uid a s
      >> dal_update_submission_cache_table s.submission_id

  pub steps-Takes :
      (uid : ℕ) (a : Action) (m : Option String) (s : ExtendedSubmission) (t : View)
      → Takes (steps uid a m s) t (accepted uid a (stored_message env.trim_space a m) s t)
  unfolding steps
  steps-Takes uid a m s t =
      let sid : ℕ = s.submission_id in
      let message : Option String = stored_message env.trim_space a m in
      let t0 : View = read t in
      let t1 : View = commented sid uid a message (env.clock t.readings) t0 in
      let t2 : View = after_unassign uid a sid t1 in
      let t3 : View = after_autofreeze (same_action a verify && s.should_autofreeze) sid t2 in
      Takes-assoc (open_pg env) (now env.clock) _ t _ (
        Takes-bind _ _ t t _ (open_pg-Quiet t) (λ u. Takes-now env.clock _ t _ (
          Takes-bind _ _ t0 t3 _
            (Takes-bind _ _ t0 t2 t3
              (Takes-bind _ _ t0 t2 t2
                (Takes-bind _ _ t0 t1 t2
                  (Takes-bind _ _ t0 t0 t1
                    (when-Quiet (is_subscribing a) _ (subscribe-Quiet uid sid) t0)
                    (λ u. post-Takes sid uid a message (env.clock t.readings) t0))
                  (λ u. post_unassign-Takes uid a sid t1))
                (λ u. create_notification-Quiet uid sid a t2))
              (λ u. post_autofreeze-Takes uid a s t2))
            (λ u. dal_update_submission_cache_table-Takes sid t3))))
