-- ===== src/Comments/Found.antt =====
-- The result of the search in front of the loop over the batch.
use flashpoint_submission_sy.Prelude.{
  ℕ, ◌≡◌, ◌≢◌, ap, sym, ◌∙◌, some, List, [], ◌∷◌, arith, All, All-map, All-zip,
}
use flashpoint_submission_sy.Review.Submission.{ExtendedSubmission}
use flashpoint_submission_sy.Review.Row.{Submission, scan_row}
use flashpoint_submission_sy.Review.Row.Refinement.{Ready}
use flashpoint_submission_sy.Review.Row.Invariant.{Sound}
use flashpoint_submission_sy.Database.Search.{scan_rows, selected_rows}
use flashpoint_submission_sy.Database.Search.Found.{
  IsUnique, IsOnly, IsUnique-IsOnly, selected_rows-All, scan_rows_inv, scan_row_id,
}
use flashpoint_submission_sy.Comments.{Environment}
use flashpoint_submission_sy.Comments.Batch.{IsPending, IsFit, IsDistinct}

scan_rows_nil : (found : List ExtendedSubmission) → scan_rows [] ≡ some found → found ≡ []
unfolding scan_rows
scan_rows_nil found e = ground arith

scan_rows-IsPending :
    (env : Environment) (r : Submission) (rows : List Submission) (found : List ExtendedSubmission)
    → All (IsOnly r) rows
    → ((n : ℕ) → Ready r (env.clock n))
    → scan_rows rows ≡ some found
    → All (IsPending env r) found
scan_rows-IsPending env r [] found only ready e = rw (scan_rows_nil found e) tt
scan_rows-IsPending env r (q ∷ rows) found only ready e =
    let inv = scan_rows_inv q rows found e in
    let s = inv.0 in
    let rest = inv.1.0 in
    let id = scan_row_id q s inv.1.1 in
    rw inv.1.3 (
      (λ p. (ap scan_row (sym (only.0 (sym id ∙ p))) ∙ inv.1.1, ready)),
      scan_rows-IsPending env r rows rest only.1 ready inv.1.2,
    )

scan_rows-others :
    (r : Submission) (s : ExtendedSubmission) (rows : List Submission)
    (found : List ExtendedSubmission)
    → s.submission_id ≡ r.id
    → All (λ q. q.id ≢ r.id) rows
    → scan_rows rows ≡ some found
    → All (λ q. q.submission_id ≢ s.submission_id) found
scan_rows-others r s [] found id h e = rw (scan_rows_nil found e) tt
scan_rows-others r s (q ∷ rows) found id h e =
    let inv = scan_rows_inv q rows found e in
    rw inv.1.3 (
      (λ p. h.0 (sym (scan_row_id q inv.0 inv.1.1) ∙ p ∙ id)),
      scan_rows-others r s rows inv.1.0 id h.1 inv.1.2,
    )

pub scan_rows-IsDistinct :
    (rows : List Submission) (found : List ExtendedSubmission)
    → IsUnique rows
    → scan_rows rows ≡ some found
    → IsDistinct found
scan_rows-IsDistinct [] found u e = rw (scan_rows_nil found e) tt
scan_rows-IsDistinct (r ∷ rows) found u e =
    let inv = scan_rows_inv r rows found e in
    rw inv.1.3 (
      scan_rows-others r inv.0 rows inv.1.0 (scan_row_id r inv.0 inv.1.1) u.0 inv.1.2,
      scan_rows-IsDistinct rows inv.1.0 u.1 inv.1.2,
    )

-- A row has the invariant, and all that is stored on it is older than the clock.
abbrev pub IsSettled : Environment → Submission → Type 0
IsSettled env r = Sound r × ((n : ℕ) → Ready r (env.clock n))

pub found-IsFit :
    (env : Environment) (sids : List ℕ) (rows : List Submission) (found : List ExtendedSubmission)
    → IsUnique rows
    → All (IsSettled env) rows
    → scan_rows (selected_rows sids rows) ≡ some found
    → All (IsFit env found) rows
found-IsFit env sids rows found unique settled e =
    All-map _ _ rows
      (λ r p. (
        p.0.0,
        scan_rows-IsPending env r (selected_rows sids rows) found
            (selected_rows-All (IsOnly r) sids rows p.1) p.0.1 e,
      ))
      (All-zip _ _ rows settled (IsUnique-IsOnly rows unique))
