-- ===== src/Access/Levels.antt =====
-- The levels of access: files and comments, and curation images.
use flashpoint_submission_sy.Prelude.{
  ℕ, ◌≡◌, ◌≢◌, refl, ◌↔◌, ◌⊎◌, true, List, [], ◌∷◌, ok, arith, any, All,
}
use flashpoint_submission_sy.Constants.Roles.{
  Role, same_role, has_any_role, is_freezer, is_staff, freezer_roles, staff_roles,
}
use flashpoint_submission_sy.Review.Submission.{ExtendedSubmission, uid_in}
use flashpoint_submission_sy.Transport.Request.{Request, Service, FileInfo}
use flashpoint_submission_sy.Transport.Ownership.{parse_all}
use flashpoint_submission_sy.Access.{
  can_read_submission_details, can_read_submission_meta, can_read_all, parents,
  user_can_read_submission_details,
}

freezer_role-staff :
    (role : Role)
    → any (same_role role) freezer_roles ≡ true
    → any (same_role role) staff_roles ≡ true
freezer_role-staff role h = ground arith

pub is_freezer-is_staff : (roles : List Role) → is_freezer roles ≡ true → is_staff roles ≡ true
unfolding is_freezer is_staff has_any_role
is_freezer-is_staff [] h = h
is_freezer-is_staff (role ∷ roles) h =
    ground (arith, freezer_role-staff role, is_freezer-is_staff roles)

-- If a submission is found and is frozen, and the roles of the user and the submission's uploaders are
-- found, its files are open exactly to a user who is logged in and is a freezer or one of the
-- uploaders.
pub frozen_details_iff :
    (svc : Service) (uid sid : ℕ) (s : ExtendedSubmission) (rest : List ExtendedSubmission)
    (roles : List Role) (uploaders : List ℕ)
    → svc.get_submission_summary sid ≡ ok (s ∷ rest)
    → s.is_frozen ≡ true
    → svc.get_user_roles uid ≡ ok roles
    → svc.get_submission_uploader_ids sid ≡ ok uploaders
    → (can_read_submission_details svc uid sid ≡ ok true)
      ↔ ((uid ≢ 0) × ((is_freezer roles ≡ true) ⊎ (uid_in uid uploaders ≡ true)))
unfolding can_read_submission_details
frozen_details_iff svc uid sid s rest roles uploaders found frozen has_roles has_uploaders =
    ground arith

-- Whoever may read the files of a submission may read its images and its metadata.
pub details-meta :
    (svc : Service) (uid sid : ℕ)
    → can_read_submission_details svc uid sid ≡ ok true
    → can_read_submission_meta svc uid sid ≡ ok true
unfolding can_read_submission_details can_read_submission_meta
details-meta svc uid sid h = ground arith

can_read_all_iff :
    (svc : Service) (uid : ℕ) (sids : List ℕ)
    → (can_read_all svc uid sids ≡ ok true)
      ↔ All (λ sid. can_read_submission_details svc uid sid ≡ ok true) sids
unfolding can_read_all
can_read_all_iff svc uid [] = (λ h. tt, λ h. refl)
can_read_all_iff svc uid (sid ∷ sids) = ground (arith, can_read_all_iff svc uid sids)

-- Each of the files belongs to a submission that the user may read.
abbrev pub AllReadable : Service → ℕ → List FileInfo → Type 0
AllReadable svc uid = All (λ f. can_read_submission_details svc uid f.submission_id ≡ ok true)

readable_member :
    (svc : Service) (uid sid : ℕ) (sids : List ℕ)
    → All (λ x. can_read_submission_details svc uid x ≡ ok true) sids
    → uid_in sid sids ≡ true
    → can_read_submission_details svc uid sid ≡ ok true
unfolding uid_in
readable_member svc uid sid [] h p = cc
readable_member svc uid sid (x ∷ sids) h p = ground (arith, readable_member svc uid sid sids h.1)

parents-AllReadable :
    (svc : Service) (uid : ℕ) (files : List FileInfo)
    → All (λ x. can_read_submission_details svc uid x ≡ ok true) (parents svc files)
    → AllReadable svc uid files
unfolding parents
parents-AllReadable svc uid [] h = tt
parents-AllReadable svc uid (f ∷ fs) h = ground (
  arith,
  parents-AllReadable svc uid fs,
  readable_member svc uid f.submission_id (parents svc fs),
)

-- If the ids of a download parse and the files are found, the download is let through only if there
-- is a file, and the user may read the submission of each file.
pub batch_needs_every_parent :
    (svc : Service) (r : Request) (uid : ℕ) (fids : List ℕ) (files : List FileInfo)
    → parse_all "invalid file id" r.file_ids ≡ ok fids
    → svc.get_submission_files fids ≡ ok files
    → user_can_read_submission_details svc true r uid ≡ ok true
    → (files ≢ []) × AllReadable svc uid files
unfolding user_can_read_submission_details
batch_needs_every_parent svc r uid fids files parsed_ids found accepted = (
  λ e. ground arith,
  parents-AllReadable svc uid files
      ((can_read_all_iff svc uid (parents svc files)).0 (ground arith)),
)
