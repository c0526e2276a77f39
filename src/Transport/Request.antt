-- ===== src/Transport/Request.antt =====
-- What the authorizers read of a request, and the service that they ask.
use flashpoint_submission_sy.Prelude.{ℕ, Bool, Option, List, Result}
use flashpoint_submission_sy.Constants.Actions.{Action}
use flashpoint_submission_sy.Constants.Roles.{Role}
use flashpoint_submission_sy.Review.Submission.{ExtendedSubmission}

-- A route variable that names an id is kept as `strconv.ParseInt` reads it: `none` is its error. One
-- that names many is split at the commas. `form_action` is `none` where `ParseForm` fails.
pub record Request : Type 0 where
  pub submission_id : Option ℕ
  pub submission_ids : List (Option ℕ)
  pub file_id : Option ℕ
  pub file_ids : List (Option ℕ)
  pub comment_id : Option ℕ
  pub curation_image_id : Option ℕ
  pub form_action : Option Action

-- The resource keys of constants/constants.go that the authorizers are called with.
pub data ResourceKey : Type 0 where
  submission_key submission_ids_key file_key file_ids_key : ResourceKey
  comment_key curation_image_key other_key : ResourceKey

-- `SubmissionFile`, as far as the authorizers read it.
pub record FileInfo : Type 0 where
  pub submission_id : ℕ
  pub submitter_id : ℕ

-- The calls of the site service.
pub record Service : Type 0 where
  pub get_user_roles : ℕ → Result (List Role)
  pub get_submission_summary : ℕ → Result (List ExtendedSubmission)
  pub get_submission_files : List ℕ → Result (List FileInfo)
  pub get_submission_file : ℕ → Result (Option FileInfo)
  pub get_comment_submission : ℕ → Result (Option ℕ)
  pub lookup_curation_image_file : ℕ → Result (Option ℕ)
  pub search_unrejected_submissions : ℕ → Result (List ExtendedSubmission)
  pub get_submission_uploader_ids : ℕ → Result (List ℕ)

-- `func(*http.Request, int64) (bool, error)`; the Boolean of a result with an error is not read.
abbrev pub Authorizer : Type 0
Authorizer = Request → ℕ → Result Bool
