-- ===== src/Comments/Batch.antt =====
-- The loop over a batch, and the invariant of the rows.
use flashpoint_submission_sy.Prelude.{
  ℕ, ◌+◌, ◌≡◌, ◌≢◌, ◌≤◌, inl, inr, refl, ap, sym, ◌∙◌, Bool, Option, none, some, String, List, [],
  ◌∷◌, ok, arith, All, ◌==◌, ==_iff, Bool-cases,
}
use flashpoint_submission_sy.Constants.Actions.{Action}
use flashpoint_submission_sy.Review.Submission.{ExtendedSubmission}
use flashpoint_submission_sy.Review.Validator.{is_action_valid_for_submission}
use flashpoint_submission_sy.Review.Row.{
  Submission, Stamps, scan_row, reviewed, refresh_cache, unassign, autofreeze, store_comment,
  freeze,
}
use flashpoint_submission_sy.Review.Row.Refinement.{Ready, InOrder}
use flashpoint_submission_sy.Review.Row.Invariant.{Sound}
use flashpoint_submission_sy.Review.Row.Preservation.{reviewed-Sound}
use flashpoint_submission_sy.Database.Session.{Session, modify_submission, pure}
use flashpoint_submission_sy.Comments.{Environment, stored_message, review_each, review_one, skip}
use flashpoint_submission_sy.Comments.Effect.{View, view, bind_inv, skip-Quiet}
use flashpoint_submission_sy.Comments.Refinement.{stamps, stamps-InOrder}
use flashpoint_submission_sy.Comments.Rounds.{review_one-reviewed}

-- The clock does not go back.
abbrev pub IsMonotone : (ℕ → ℕ) → Type 0
IsMonotone clock = (n : ℕ) → clock n ≤ clock (n + 1)

-- The search read the row as `s`, and all that is stored on it is older than the clock.
abbrev pub IsPending : Environment → Submission → ExtendedSubmission → Type 0
IsPending env r s =
    s.submission_id ≡ r.id → (scan_row r ≡ some s) × ((n : ℕ) → Ready r (env.clock n))

-- A row in front of the rest of the loop.
abbrev pub IsFit : Environment → List ExtendedSubmission → Submission → Type 0
IsFit env found r = Sound r × All (IsPending env r) found

-- No submission is found twice.
abbrev pub IsDistinct : List ExtendedSubmission → Type 0
IsDistinct [] = Unit
IsDistinct (s ∷ found) = All (λ q. q.submission_id ≢ s.submission_id) found × IsDistinct found

reviewed_id :
    (uid : ℕ) (a : Action) (message : Option String) (should : Bool) (st : Stamps) (r : Submission)
    → (reviewed uid a message should st r).id ≡ r.id
unfolding reviewed refresh_cache unassign autofreeze store_comment freeze
reviewed_id uid a message should st r = ground arith

others-IsPending :
    (env : Environment) (s : ExtendedSubmission) (r : Submission) (found : List ExtendedSubmission)
    → s.submission_id ≡ r.id
    → All (λ q. q.submission_id ≢ s.submission_id) found
    → All (IsPending env r) found
others-IsPending env s r [] e h = tt
others-IsPending env s r (q ∷ found) e h =
    (λ p. absurd (h.0 (p ∙ sym e)), others-IsPending env s r found e h.1)

-- The rows after an action on one of them.
modify_submission-IsFit :
    (env : Environment) (uid : ℕ) (a : Action) (message : Option String) (s : ExtendedSubmission)
    (st : Stamps) (n : ℕ) (found : List ExtendedSubmission) (rows : List Submission)
    → is_action_valid_for_submission uid a s ≡ none
    → InOrder st
    → st.at0 ≡ env.clock n
    → All (λ q. q.submission_id ≢ s.submission_id) found
    → All (IsFit env (s ∷ found)) rows
    → All
        (IsFit env found)
        (modify_submission s.submission_id (reviewed uid a message s.should_autofreeze st) rows)
unfolding modify_submission
modify_submission-IsFit env uid a message s st n found [] valid order at distinct h = tt
modify_submission-IsFit env uid a message s st n found (r ∷ rows) valid order at distinct h =
    let rest =
      modify_submission-IsFit env uid a message s st n found rows valid order at distinct h.1 in
    let sound = h.0.0 in
    let pending = h.0.1 in
    elim (Bool-cases (r.id == s.submission_id)) [
      | inl same ↦
          let e : s.submission_id ≡ r.id = sym ((==_iff r.id s.submission_id).0 same) in
          let read = pending.0 e in
          let r' = reviewed uid a message s.should_autofreeze st r in
          rw same (
            (
              reviewed-Sound uid a message st r s sound read.0 valid (rw at (read.1 n)) order,
              others-IsPending env s r' found
                  (e ∙ sym (reviewed_id uid a message s.should_autofreeze st r)) distinct,
            ),
            rest,
          )
      | inr differs ↦ rw differs ((sound, pending.1), rest)
    ]

skip_pending :
    (env : Environment) (s : ExtendedSubmission) (found : List ExtendedSubmission)
    (rows : List Submission)
    → All (IsFit env (s ∷ found)) rows
    → All (IsFit env found) rows
skip_pending env s found [] h = tt
skip_pending env s found (r ∷ rows) h = ((h.0.0, h.0.1.1), skip_pending env s found rows h.1)

All-Sound :
    (env : Environment) (found : List ExtendedSubmission) (rows : List Submission)
    → All (IsFit env found) rows
    → All Sound rows
All-Sound env found [] h = tt
All-Sound env found (r ∷ rows) h = (h.0.0, All-Sound env found rows h.1)

-- If no submission is found twice, the clock does not go back, every row has the invariant, and each
-- row that the search found is as the search read it, with nothing on it that is not older than the
-- clock, then after a loop that succeeds every row has the invariant.
pub review_each-Sound :
    (env : Environment) (uid : ℕ) (a : Action) (message : Option String) (ignore_dupes : Bool)
    (found : List ExtendedSubmission) (w w' : Session)
    → IsMonotone env.clock
    → IsDistinct found
    → All (IsFit env found) w.db.submissions
    → review_each env uid a message ignore_dupes found w ≡ ok (tt, w')
    → All Sound w'.db.submissions
unfolding review_each skip pure
review_each-Sound env uid a message ignore_dupes [] w w' clock distinct fit e =
    let same : w'.db.submissions ≡ w.db.submissions =
      ap (λ (t : View). t.rows) (skip-Quiet (view w) w w' tt e refl) in
    rw same (All-Sound env [] w.db.submissions fit)
review_each-Sound env uid a message ignore_dupes (s ∷ found) w w' clock distinct fit e =
    let inv =
      bind_inv (review_one env uid a message ignore_dupes s)
        (λ u. review_each env uid a message ignore_dupes found) w w' tt e in
    let v : Session = inv.1.0 in
    let round = review_one-reviewed env uid a message ignore_dupes s w v inv.1.1 in
    let kept : All (IsFit env found) v.db.submissions = elim round.1 [
      | inl (valid, (m, _, rows)) ↦ rw rows (
          modify_submission-IsFit env uid a (stored_message env.trim_space a m) s
            (stamps env (view w)) w.readings found w.db.submissions valid
            (stamps-InOrder env (view w) clock) refl distinct.0 fit)
      | inr (_, _, rows) ↦ rw rows (skip_pending env s found w.db.submissions fit)
    ] in
    review_each-Sound env uid a message ignore_dupes found v w' clock distinct.1 kept inv.1.2
