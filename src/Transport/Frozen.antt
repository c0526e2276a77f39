-- ===== src/Transport/Frozen.antt =====
-- transport/middlewares.go: `IsResourceFrozen`.
pub mod Batch
use flashpoint_submission_sy.Prelude.{
  ℕ, ◌≡◌, refl, Bool, true, false, Option, none, some, List, [], ◌∷◌, Result, ok, err, ◌>>=◌,
  if◌then◌else◌, arith, All, errorf, text, about,
}
use flashpoint_submission_sy.Review.Submission.{ExtendedSubmission}
use flashpoint_submission_sy.Transport.Request.{
  Request, Service, FileInfo, ResourceKey, submission_key, submission_ids_key, file_ids_key,
  Authorizer,
}
use flashpoint_submission_sy.Transport.Ownership.{parsed, parse_all, found_summary}

module _ (svc : Service) where
  unfoldable pub is_submission_frozen : ℕ → Result Bool
  is_submission_frozen sid = found_summary svc sid >>= λ s. ok s.is_frozen

  -- The loops answer at the first submission that is frozen.
  unfoldable pub is_any_frozen : List ℕ → Result Bool
  is_any_frozen [] = ok false
  is_any_frozen (sid ∷ sids) =
      let rest = is_any_frozen sids in
      is_submission_frozen sid >>= λ frozen. elim frozen [ true ↦ ok true | false ↦ rest ]

  unfoldable pub parent_of : ℕ → Result ℕ
  parent_of fid = svc.get_submission_files (fid ∷ []) >>= elim [
    | [] ↦ err (errorf (about "submission file with id %d not found" fid))
    | f ∷ _ ↦ ok f.submission_id
  ]

  unfoldable pub is_any_file_frozen : List ℕ → Result Bool
  unfolding parent_of
  is_any_file_frozen [] = ok false
  is_any_file_frozen (fid ∷ fids) =
      let rest = is_any_file_frozen fids in
      parent_of fid >>= is_submission_frozen >>= λ frozen. elim frozen [
        | true ↦ ok true
        | false ↦ rest
      ]

  unfoldable pub is_resource_frozen : ResourceKey → Authorizer
  unfolding is_submission_frozen is_any_frozen is_any_file_frozen
  is_resource_frozen submission_key r uid =
      parsed "invalid submission id" r.submission_id >>= is_submission_frozen
  is_resource_frozen submission_ids_key r uid =
      parse_all "invalid submission id" r.submission_ids >>= is_any_frozen
  is_resource_frozen file_ids_key r uid =
      parse_all "invalid file id" r.file_ids >>= is_any_file_frozen
  is_resource_frozen _ r uid = err (errorf (text "invalid resource"))
