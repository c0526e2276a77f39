-- ===== src/Comments/Rounds.antt =====
-- One round of the loop over a batch, on every branch.
use flashpoint_submission_sy.Prelude.{
  ℕ, ◌≡◌, ◌⊎◌, inl, inr, refl, ap, sym, ◌∙◌, Bool, true, false, not, Option, none, some, String,
  List, ok, perr, text, forbidden, ◌≢◌, Error, arith,
}
use flashpoint_submission_sy.Constants.Actions.{Action, mark_added}
use flashpoint_submission_sy.Constants.Roles.{Role, is_freezer}
use flashpoint_submission_sy.Review.Submission.{ExtendedSubmission}
use flashpoint_submission_sy.Review.Validator.{is_action_valid_for_submission}
use flashpoint_submission_sy.Review.Row.{reviewed}
use flashpoint_submission_sy.Database.Session.{
  Session, ◌>>=◌, raise, pure, dal_call, get_discord_user_roles, modify_submission,
}
use flashpoint_submission_sy.Comments.{Environment, skip, when, stored_message, review_one, settle}
use flashpoint_submission_sy.Comments.Effect.{View, view, bind_inv}
use flashpoint_submission_sy.Comments.Refinement.{stamps, accept-reviewed}

pub dal_call_db :
    (w w' : Session) (u : Unit {0}) → dal_call w ≡ ok (u, w') → (w'.db ≡ w.db) × (view w' ≡ view w)
unfolding dal_call
dal_call_db w w' u e = ground arith

roles_read :
    (uid : ℕ) (w w' : Session) (roles : List Role)
    → get_discord_user_roles uid w ≡ ok (roles, w')
    → (roles ≡ w.db.user_roles uid) × (view w' ≡ view w)
unfolding get_discord_user_roles
roles_read uid w w' roles e =
    let inv = bind_inv dal_call _ w w' roles e in
    ground (arith, dal_call_db w inv.1.0 inv.0 inv.1.1, inv.1.2)

refusal_passed :
    (x : Error) (freezer : Bool) (v w' : Session)
    → when (not freezer) (raise x) v ≡ ok (tt, w')
    → (freezer ≡ true) × (view w' ≡ view v)
unfolding when skip pure raise
refusal_passed x true v w' h = (refl, ground arith)
refusal_passed x false v w' h = absurd (ground arith)

-- The check of a frozen submission passes only a freezer, and changes nothing.
frozen_check :
    (uid : ℕ) (frozen : Bool) (x : Error) (w w' : Session)
    → when frozen
        (get_discord_user_roles uid >>= λ roles. when (not (is_freezer roles)) (raise x))
        w
      ≡ ok (tt, w')
    → ((frozen ≡ false) ⊎ (is_freezer (w.db.user_roles uid) ≡ true)) × (view w' ≡ view w)
unfolding when skip pure
frozen_check uid false x w w' h = (inl refl, ground arith)
frozen_check uid true x w w' h =
    let inv = bind_inv (get_discord_user_roles uid) _ w w' tt h in
    let read = roles_read uid w inv.1.0 inv.0 inv.1.1 in
    let passed = refusal_passed x (is_freezer inv.0) inv.1.0 w' inv.1.2 in
    (inr (ap is_freezer (sym read.0) ∙ passed.0), passed.1 ∙ read.1)

-- What the rest of the round does by the validator's verdict.
after_verdict :
    (env : Environment) (uid : ℕ) (a : Action) (message : Option String) (ignore_dupes : Bool)
    (s : ExtendedSubmission) (t : View) (verdict : Option Error) (v w' : Session)
    → view v ≡ t
    → settle env uid a message ignore_dupes s verdict v ≡ ok (tt, w')
    → (verdict ≡ none)
        × ((m : Option String) × ((a ≡ mark_added) ⊎ (m ≡ message))
            × (w'.db.submissions
                ≡ modify_submission s.submission_id
                    (reviewed uid a
                      (stored_message env.trim_space a m)
                      s.should_autofreeze
                      (stamps env t))
                    t.rows))
      ⊎ (verdict ≢ none) × (ignore_dupes ≡ true) × (w'.db.submissions ≡ t.rows)
unfolding settle when skip pure raise
after_verdict env uid a message ignore_dupes s t none v w' hv h =
    inl (refl, rw (sym hv) (accept-reviewed env uid a message s v w' h))
after_verdict env uid a message true s t (some x) v w' hv h = inr (λ q. cc, refl, ground arith)
after_verdict env uid a message false s t (some x) v w' hv h = absurd (ground arith)

-- If a round of the loop succeeds, the submission was not frozen or the user is a freezer; and either
-- the validator let the action through and the submissions are changed by `reviewed` on the row of
-- the submission, with ids and times that the session gives, or it refused it, refusals are
-- ignored, and the submissions are as before.
pub review_one-reviewed :
    (env : Environment) (uid : ℕ) (a : Action) (message : Option String) (ignore_dupes : Bool)
    (s : ExtendedSubmission) (w w' : Session)
    → review_one env uid a message ignore_dupes s w ≡ ok (tt, w')
    → ((s.is_frozen ≡ false) ⊎ (is_freezer (w.db.user_roles uid) ≡ true))
      × ((is_action_valid_for_submission uid a s ≡ none)
            × ((m : Option String) × ((a ≡ mark_added) ⊎ (m ≡ message))
                × (w'.db.submissions
                    ≡ modify_submission s.submission_id
                        (reviewed uid a
                          (stored_message env.trim_space a m)
                          s.should_autofreeze
                          (stamps env (view w)))
                        w.db.submissions))
          ⊎ (is_action_valid_for_submission uid a s ≢ none)
            × (ignore_dupes ≡ true)
            × (w'.db.submissions ≡ w.db.submissions))
unfolding review_one
review_one-reviewed env uid a message ignore_dupes s w w' h =
    let inv = bind_inv _ _ w w' tt h in
    let checked =
      frozen_check uid s.is_frozen (perr (text "submission is frozen") forbidden) w inv.1.0
        inv.1.1 in
    (
      checked.0,
      after_verdict env uid a message ignore_dupes s (view w)
          (is_action_valid_for_submission uid a s) inv.1.0 w' checked.1 inv.1.2,
    )
