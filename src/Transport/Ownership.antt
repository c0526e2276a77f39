-- ===== src/Transport/Ownership.antt =====
-- transport/middlewares.go: `UserOwnsResource`, `IsUserWithinResourceLimit` and
-- `SubmissionOwnsChildResource`.
pub mod Parents
use flashpoint_submission_sy.Prelude.{
  ℕ, ◌≡◌, refl, Bool, true, false, Option, none, some, List, [], ◌∷◌, Result, ok, err, ◌>>=◌, ◌==◌,
  if◌then◌else◌, arith, All, errorf, text, about, panic, length, leb, ==_iff, String,
}
use flashpoint_submission_sy.Review.Submission.{ExtendedSubmission}
use flashpoint_submission_sy.Transport.Request.{
  Request, Service, FileInfo, ResourceKey, submission_key, submission_ids_key, file_key,
  comment_key, curation_image_key, Authorizer,
}

-- `strconv.ParseInt` with its error.
abbrev pub parsed : String → Option ℕ → Result ℕ
parsed msg none = err (errorf (text msg))
parsed msg (some id) = ok id

-- The loop that parses a list of ids.
unfoldable pub parse_all : String → List (Option ℕ) → Result (List ℕ)
parse_all msg [] = ok []
parse_all msg (p ∷ ps) =
    let rest = parse_all msg ps in parsed msg p >>= λ id. rest >>= λ ids. ok (id ∷ ids)

module _ (svc : Service) where
  -- The summary of a submission that is found.
  unfoldable pub found_summary : ℕ → Result ExtendedSubmission
  found_summary sid =
      svc.get_submission_summary sid
      >>= elim [ [] ↦ err (errorf (about "submission with id %d not found" sid)) | s ∷ _ ↦ ok s ]

  unfoldable pub owns_submission : ℕ → ℕ → Result Bool
  unfolding found_summary
  owns_submission uid sid = found_summary sid >>= λ s. ok (s.submitter_id == uid)

  unfoldable pub owns_all : ℕ → List ℕ → Result Bool
  unfolding owns_submission
  owns_all uid [] = ok true
  owns_all uid (sid ∷ sids) =
      let rest = owns_all uid sids in
      owns_submission uid sid >>= λ owns. elim owns [ true ↦ rest | false ↦ ok false ]

  -- An id of a file that does not parse is declined; no file at an id is an index out of range.
  unfoldable pub owns_file : ℕ → Option ℕ → Result Bool
  owns_file uid none = ok false
  owns_file uid (some fid) =
      svc.get_submission_files (fid ∷ [])
      >>= elim [ [] ↦ err panic | f ∷ _ ↦ ok (f.submitter_id == uid) ]

  unfoldable pub user_owns_resource : ResourceKey → Authorizer
  unfolding owns_submission owns_all owns_file parse_all
  user_owns_resource submission_key r uid =
      parsed "invalid submission id" r.submission_id >>= owns_submission uid
  user_owns_resource submission_ids_key r uid =
      parse_all "invalid submission id" r.submission_ids >>= owns_all uid
  user_owns_resource file_key r uid = owns_file uid r.file_id
  user_owns_resource _ r uid = err (errorf (text "invalid resource"))

  unfoldable pub is_user_within_resource_limit : ResourceKey → ℕ → Authorizer
  is_user_within_resource_limit submission_key amount r uid =
      svc.search_unrejected_submissions uid >>= λ submissions.
      ok (if leb amount (length submissions) then false else true)
  is_user_within_resource_limit _ amount r uid = err (errorf (text "invalid resource"))

  -- Is the found parent the submission? What is not found is declined.
  abbrev pub is_parent : ℕ → Option ℕ → Result Bool
  is_parent sid none = ok false
  is_parent sid (some parent) = ok (parent == sid)

  abbrev pub parent_of_file : Option FileInfo → Option ℕ
  parent_of_file none = none
  parent_of_file (some f) = some f.submission_id

  -- A curation image belongs to the submission of its file.
  pub owns_image_file : ℕ → Option ℕ → Result Bool
  owns_image_file sid none = ok false
  owns_image_file sid (some fid) =
      svc.get_submission_file fid >>= λ f. is_parent sid (parent_of_file f)

  pub owns_child : ResourceKey → Request → ℕ → Result Bool
  unfolding owns_image_file
  owns_child file_key r sid = parsed "invalid file id" r.file_id >>= λ fid.
      svc.get_submission_file fid >>= λ f. is_parent sid (parent_of_file f)
  owns_child comment_key r sid = parsed "invalid comment id" r.comment_id >>= λ cid.
      svc.get_comment_submission cid >>= is_parent sid
  owns_child curation_image_key r sid =
      parsed "invalid curation image id" r.curation_image_id >>= λ ciid.
      svc.lookup_curation_image_file ciid >>= owns_image_file sid
  owns_child _ r sid = err (errorf (text "invalid resource"))

  unfoldable pub submission_owns_child_resource : ResourceKey → Authorizer
  unfolding owns_child
  submission_owns_child_resource key r uid =
      parsed "invalid submission id" r.submission_id >>= owns_child key r
