-- ===== src/Comments/Refinement.antt =====
-- `accept` and `reviewed`: the transaction of an action and the row of its submission.
use flashpoint_submission_sy.Prelude.{
  ℕ, ◌+◌, ◌≡◌, ◌⊎◌, ◌≤◌, inl, inr, refl, ap, sym, ◌∙◌, Bool, true, false, Option, String, List, [],
  ◌∷◌, ok, arith, Result-cases,
}
use flashpoint_submission_sy.Constants.Actions.{
  Action, mark_added, approve, verify, other, same_action,
}
use flashpoint_submission_sy.Review.Submission.{ExtendedSubmission}
use flashpoint_submission_sy.Review.Row.{
  Submission, Stamps, store_comment, freeze, refresh_cache, new_comment, unassign, autofreeze,
  reviewed,
}
use flashpoint_submission_sy.Review.Row.Refinement.{InOrder}
use flashpoint_submission_sy.Database.Session.{Session, modify_submission}
use flashpoint_submission_sy.Comments.{Environment, final_message, stored_message, accept}
use flashpoint_submission_sy.Comments.Effect.{View, view, bind_inv}
use flashpoint_submission_sy.Comments.Accept.{accepted, steps, steps-Takes, notice}

-- Two changes of the row of one submission are one.
modify_submission-modify_submission :
    (sid : ℕ) (f g : Submission → Submission) (rows : List Submission)
    → ((r : Submission) → (f r).id ≡ r.id)
    → modify_submission sid g (modify_submission sid f rows)
      ≡ modify_submission sid (λ r. g (f r)) rows
unfolding modify_submission
modify_submission-modify_submission sid f g [] h = refl
modify_submission-modify_submission sid f g (r ∷ rs) h =
    ground (arith, h r, modify_submission-modify_submission sid f g rs h)

-- The ids and times of the comments of an action, from the session in which it starts.
abbrev pub stamps : Environment → View → Stamps
stamps env t = record {
  id0 = t.next_comment_id;
  id1 = t.next_comment_id + 1;
  id2 = t.next_comment_id + 1 + 1;
  at0 = env.clock t.readings;
  at1 = env.clock (t.readings + 1) + 1;
  at2 = env.clock (t.readings + 1 + 1) + 2;
  notice = notice env;
}

then_change :
    (sid : ℕ) (f g : Submission → Submission) (rows rows' : List Submission)
    → ((r : Submission) → (f r).id ≡ r.id)
    → rows' ≡ modify_submission sid f rows
    → modify_submission sid g rows' ≡ modify_submission sid (λ r. g (f r)) rows
then_change sid f g rows rows' h e =
    ap (modify_submission sid g) e ∙ modify_submission-modify_submission sid f g rows h

other_unverified : (n : ℕ) → same_action (other n) verify ≡ false
other_unverified n = ground arith

modify_submission-ext :
    (sid : ℕ) (f g : Submission → Submission) (rows : List Submission)
    → ((r : Submission) → f r ≡ g r)
    → modify_submission sid f rows ≡ modify_submission sid g rows
modify_submission-ext sid f g rows h = ap (λ k. modify_submission sid k rows) (λ i r. h r i)

reviewed_other :
    (uid n : ℕ) (message : Option String) (should : Bool) (st : Stamps) (sid : ℕ)
    (rows : List Submission)
    → modify_submission sid (reviewed uid (other n) message should st) rows
      ≡ modify_submission sid
          (λ r. refresh_cache (store_comment (new_comment st.id0 uid (other n) message st.at0) r))
          rows
unfolding reviewed unassign autofreeze
reviewed_other uid n message should st sid rows =
    modify_submission-ext sid _ _ rows (λ r. rw (other_unverified n) refl)

accepted-reviewed :
    (env : Environment) (uid : ℕ) (a : Action) (message : Option String) (s : ExtendedSubmission)
    (should : Bool) (t : View)
    → s.should_autofreeze ≡ should
    → (accepted env uid a message s t).rows
      ≡ modify_submission s.submission_id (reviewed uid a message should (stamps env t)) t.rows
unfolding reviewed unassign autofreeze store_comment freeze
accepted-reviewed env uid approve message s should t e =
    then_change s.submission_id _ refresh_cache t.rows _ (λ r. refl)
      (then_change s.submission_id _ _ t.rows _ (λ r. refl) refl)
accepted-reviewed env uid verify message s true t e = rw e (
    then_change s.submission_id _ refresh_cache t.rows _ (λ r. refl)
      (then_change s.submission_id _ _ t.rows _ (λ r. refl)
        (then_change s.submission_id _ freeze t.rows _ (λ r. refl)
          (then_change s.submission_id _ _ t.rows _ (λ r. refl) refl))))
accepted-reviewed env uid verify message s false t e = rw e (
    then_change s.submission_id _ refresh_cache t.rows _ (λ r. refl)
      (then_change s.submission_id _ _ t.rows _ (λ r. refl) refl))
accepted-reviewed env uid (other n) message s should t e = rw (other_unverified n) (
    then_change s.submission_id _ refresh_cache t.rows _ (λ r. refl) refl
    ∙ sym (reviewed_other uid n message should (stamps env t) s.submission_id t.rows))
accepted-reviewed env uid _ message s should t e =
    then_change s.submission_id _ refresh_cache t.rows _ (λ r. refl) refl

final_message-view :
    (env : Environment) (a : Action) (message m : Option String) (s : ExtendedSubmission)
    (w v : Session)
    → final_message env a message s w ≡ ok (m, v)
    → (view v ≡ view w) × ((a ≡ mark_added) ⊎ (m ≡ message))
unfolding final_message
final_message-view env mark_added message m s w v e =
    elim (Result-cases (env.add_submission_to_flashpoint s)) [
      | inl (game, q) ↦ (ground arith, inl refl)
      | inr (x, q) ↦ absurd (ground arith)
    ]
final_message-view env _ message m s w v e = (ground arith, inr (ground arith))

-- If the transaction of an accepted action succeeds, it has changed the submissions by `reviewed` on
-- the row of the action's submission and by nothing else, with ids and times that the session gives,
-- and with the message of the form unless the action marks as added.
pub accept-reviewed :
    (env : Environment) (uid : ℕ) (a : Action) (message : Option String) (s : ExtendedSubmission)
    (w w' : Session)
    → accept env uid a message s w ≡ ok (tt, w')
    → (m : Option String) × ((a ≡ mark_added) ⊎ (m ≡ message))
      × (w'.db.submissions
          ≡ modify_submission s.submission_id
              (reviewed uid a
                (stored_message env.trim_space a m)
                s.should_autofreeze
                (stamps env (view w)))
              w.db.submissions)
unfolding accept steps
accept-reviewed env uid a message s w w' e =
    let inv = bind_inv (final_message env a message s) (λ m. steps env uid a m s) w w' tt e in
    let m = inv.0 in
    let before = final_message-view env a message m s w inv.1.0 inv.1.1 in
    let after = steps-Takes env uid a m s (view w) inv.1.0 w' tt inv.1.2 before.0 in
    (
      m,
      before.1,
      ap (λ t. t.rows) after
          ∙ accepted-reviewed env uid a (stored_message env.trim_space a m) s s.should_autofreeze
              (view w) refl,
    )

-- With a clock that never goes back, the times of an action's comments ascend.
pub stamps-InOrder :
    (env : Environment) (t : View)
    → ((n : ℕ) → env.clock n ≤ env.clock (n + 1))
    → InOrder (stamps env t)
stamps-InOrder env t h = record {
  first = omega (arith, h t.readings);
  second = omega (arith, h (t.readings + 1));
}
