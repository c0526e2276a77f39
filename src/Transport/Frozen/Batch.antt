-- ===== src/Transport/Frozen/Batch.antt =====
-- `IsResourceFrozen` on a batch of submissions (transport/middlewares.go).
use flashpoint_submission_sy.Prelude.{ℕ, ◌≡◌, false, List, ◌∷◌, ok}
use flashpoint_submission_sy.Review.Submission.{ExtendedSubmission}
use flashpoint_submission_sy.Transport.Request.{Request, Service}

-- The first summary that the search gives for the submission is not frozen.
abbrev pub IsThawed : Service → ℕ → Type 0
IsThawed svc sid =
    (s : ExtendedSubmission) × ((ss : List ExtendedSubmission) × (svc.get_submission_summary sid
        ≡ ok (s ∷ ss))
      × (s.is_frozen ≡ false))
