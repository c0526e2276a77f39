-- ===== src/Transport/Ownership/Parents.antt =====
-- Children and their submissions, and batches of submissions and their owner.
use flashpoint_submission_sy.Prelude.{ℕ, ◌≡◌, refl, ◌↔◌, true, some, List, [], ◌∷◌, ok, arith, All}
use flashpoint_submission_sy.Transport.Request.{Request, Service, FileInfo, file_key, comment_key}
use flashpoint_submission_sy.Transport.Ownership.{
  owns_submission, owns_all, submission_owns_child_resource,
}

module _ (svc : Service) where
  -- Where the ids of the route parse, a route for a file of a submission is open exactly when the file
  -- is found and belongs to the submission.
  pub file_child :
      (r : Request) (uid sid fid : ℕ)
      → r.submission_id ≡ some sid
      → r.file_id ≡ some fid
      → (submission_owns_child_resource svc file_key r uid ≡ ok true)
        ↔ ((f : FileInfo) × (svc.get_submission_file fid ≡ ok (some f)) × (f.submission_id ≡ sid))
  unfolding submission_owns_child_resource
  file_child r uid sid fid hs hf = ground arith

  -- Where the ids of the route parse, a route for a comment of a submission is open exactly when the
  -- comment is found and belongs to the submission.
  pub comment_child :
      (r : Request) (uid sid cid : ℕ)
      → r.submission_id ≡ some sid
      → r.comment_id ≡ some cid
      → (submission_owns_child_resource svc comment_key r uid ≡ ok true)
        ↔ (svc.get_comment_submission cid ≡ ok (some sid))
  unfolding submission_owns_child_resource
  comment_child r uid sid cid hs hc = ground arith

  owns_all_iff :
      (uid : ℕ) (sids : List ℕ)
      → (owns_all svc uid sids ≡ ok true) ↔ All (λ sid. owns_submission svc uid sid ≡ ok true) sids
  unfolding owns_all
  owns_all_iff uid [] = (λ h. tt, λ h. refl)
  owns_all_iff uid (sid ∷ sids) = ground (arith, owns_all_iff uid sids)
