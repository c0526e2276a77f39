-- ===== src/Access.antt =====
-- service/submission_access.go: who may read a frozen submission, and the authorizers of
-- transport/middlewares.go that ask (`UserCanReadSubmissionDetails`, `UserCanReadSubmissionMeta`).
pub mod Levels
use flashpoint_submission_sy.Prelude.{
  ℕ, Bool, true, false, ◌||◌, Option, none, some, List, [], ◌∷◌, Result, ok, err, ◌>>=◌, ◌==◌,
  if◌then◌else◌, perr, text, not_found, map, ◌<◌, length, ltb,
}
use flashpoint_submission_sy.Constants.Roles.{is_freezer, is_staff}
use flashpoint_submission_sy.Review.Submission.{ExtendedSubmission, uid_in}
use flashpoint_submission_sy.Transport.Request.{Request, Service, FileInfo, Authorizer}
use flashpoint_submission_sy.Transport.Ownership.{parsed, parse_all}

module _ (svc : Service) where
  unfoldable pub can_read_frozen_submission : ℕ → ℕ → Result Bool
  can_read_frozen_submission uid sid =
      let by_upload = svc.get_submission_uploader_ids sid >>= λ ids. ok (uid_in uid ids) in
      if uid == 0
      then ok false
      else (svc.get_user_roles uid >>= λ roles. if is_freezer roles then ok true else by_upload)

  unfoldable pub can_read_frozen_submission_meta : ℕ → ℕ → Result Bool
  unfolding can_read_frozen_submission
  can_read_frozen_submission_meta uid sid =
      if uid == 0
      then ok false
      else (svc.get_user_roles uid >>= λ roles.
          if is_staff roles then ok true else can_read_frozen_submission uid sid)

  -- The common part: what is not frozen is open.
  unfoldable pub unless_frozen : ℕ → Result Bool → Result Bool
  unless_frozen sid frozen = svc.get_submission_summary sid >>= elim [
    | [] ↦ err (perr (text "submission not found") not_found)
    | s ∷ _ ↦ (if s.is_frozen then frozen else ok true)
  ]

  unfoldable pub can_read_submission_details : ℕ → ℕ → Result Bool
  unfolding unless_frozen can_read_frozen_submission
  can_read_submission_details uid sid = unless_frozen sid (can_read_frozen_submission uid sid)

  unfoldable pub can_read_submission_meta : ℕ → ℕ → Result Bool
  unfolding unless_frozen can_read_frozen_submission_meta
  can_read_submission_meta uid sid = unless_frozen sid (can_read_frozen_submission_meta uid sid)

  -- The loop over the set of submissions. A map has no order: the list is one order of its keys.
  unfoldable pub can_read_all : ℕ → List ℕ → Result Bool
  can_read_all uid [] = ok true
  can_read_all uid (sid ∷ sids) =
      let rest = can_read_all uid sids in
      can_read_submission_details uid sid >>= λ allowed. elim allowed [
        | true ↦ rest
        | false ↦ ok false
      ]

  -- `sids[file.SubmissionID] = true` for each file.
  unfoldable pub parents : List FileInfo → List ℕ
  parents [] = []
  parents (f ∷ fs) =
      let rest = parents fs in if uid_in f.submission_id rest then rest else f.submission_id ∷ rest

  -- `return len(sids) > 0, nil` behind the loop.
  unfoldable pub can_read_some : ℕ → List ℕ → Result Bool
  can_read_some uid sids = can_read_all uid sids >>= λ allowed. elim allowed [
    | true ↦ ok (ltb 0 (length sids))
    | false ↦ ok false
  ]

  unfoldable pub user_can_read_submission_details : Bool → Authorizer
  unfolding can_read_some can_read_all parents
  user_can_read_submission_details true r uid = parse_all "invalid file id" r.file_ids >>= λ fids.
      svc.get_submission_files fids >>= λ files. can_read_some uid (parents files)
  user_can_read_submission_details false r uid =
      parsed "invalid submission id" r.submission_id >>= λ sid. can_read_some uid (sid ∷ [])

  unfoldable pub user_can_read_submission_meta : Authorizer
  user_can_read_submission_meta r uid =
      parsed "invalid submission id" r.submission_id >>= can_read_submission_meta uid
