-- ===== src/Tests/Routes.antt =====
-- The theorems on the routes, the access to frozen submissions and the locks, at sample requests.
use flashpoint_submission_sy.Transport.States.{
  State, StateKeeper, Codec, clean, clean_lem, generate, consume, consume-generate,
}
use flashpoint_submission_sy.Database.Locks.Order.{IsAscending, lock_order-IsAscending}
use flashpoint_submission_sy.Database.Locks.{lock_order}
use flashpoint_submission_sy.Access.Levels.{
  frozen_details_iff, batch_needs_every_parent, AllReadable,
}
use flashpoint_submission_sy.Access.{
  can_read_submission_details, can_read_frozen_submission, unless_frozen, can_read_all,
  can_read_some, parents, user_can_read_submission_details,
}
use flashpoint_submission_sy.Transport.CommentRoute.{
  comment_route, is_any_submission_frozen, user_owns_all_submissions, comment_route_accepts,
}
use flashpoint_submission_sy.Transport.CommentAction.{
  user_can_comment_action, may_act, may_act_iff, IsPermitted,
}
use flashpoint_submission_sy.Transport.Frozen.{
  is_resource_frozen, is_submission_frozen, is_any_frozen,
}
use flashpoint_submission_sy.Transport.Ownership.Parents.{file_child}
use flashpoint_submission_sy.Transport.Ownership.{
  parse_all, found_summary, submission_owns_child_resource,
}
use flashpoint_submission_sy.Transport.Scopes.{request_scope, next, IsGranted, request_scope_iff}
use flashpoint_submission_sy.Transport.Roles.{
  is_staff_user, is_trial_curator_user, is_freezer_user, is_in_audit_user, user_has_any_role,
  user_has_all_roles, user_has_all_roles_iff, IsAmong,
}
use flashpoint_submission_sy.Transport.Combinators.{mux_all, mux_any, mux_not}
use package.text.Mathlib.Text.{◌==◌ as str_eq}
use Prim.Native.String.{◌++◌ as str_append}
use flashpoint_submission_sy.Prelude.{
  ℕ, ◌≡◌, ◌≢◌, ◌↔◌, ◌⊎◌, refl, true, false, none, some, String, List, [], ◌∷◌, ok, ◌==◌, All,
  if◌then◌else◌,
}
use flashpoint_submission_sy.Constants.Actions.{comment, approve}
use flashpoint_submission_sy.Constants.Roles.{
  Role, tester, curator, administrator, is_staff, is_freezer, has_any_role,
}
use flashpoint_submission_sy.Review.Submission.{uid_in}
use flashpoint_submission_sy.Tests.Rows.{approved_scan}
use flashpoint_submission_sy.Transport.Request.{Request, Service, FileInfo, Authorizer, file_key}

-- Submission 7 with file 1 and comment 4; user 10 uploads, user 20 is a tester, user 30 an
-- administrator. Submission 8 is frozen.
abbrev pub svc : Service
svc = record {
  get_user_roles = λ uid.
      if uid == 20 then ok (tester ∷ []) else if uid == 30 then ok (administrator ∷ []) else ok [];
  get_submission_summary =
      λ sid. ok (record approved_scan { submission_id = sid; is_frozen = sid == 8 } ∷ []);
  get_submission_files = λ fids. ok (record { submission_id = 7; submitter_id = 10 } ∷ []);
  get_submission_file = λ fid. ok (some (record { submission_id = 7; submitter_id = 10 }));
  get_comment_submission = λ cid. ok (some 7);
  lookup_curation_image_file = λ ciid. ok (some 1);
  search_unrejected_submissions = λ uid. ok [];
  get_submission_uploader_ids = λ sid. ok (10 ∷ []);
}

abbrev uploader : ℕ
uploader = 10

abbrev found_files : List FileInfo
found_files = record { submission_id = 7; submitter_id = 10 } ∷ []

abbrev pub request : Request
request = record {
  submission_id = some 7;
  submission_ids = some 7 ∷ [];
  file_id = some 1;
  file_ids = some 1 ∷ [];
  comment_id = some 4;
  curation_image_id = none;
  form_action = some approve;
}

comment_route_open : comment_route svc request 20 ≡ ok true
unfolding comment_route mux_all mux_any mux_not is_staff_user is_trial_curator_user is_freezer_user
    is_in_audit_user user_can_comment_action is_resource_frozen user_has_any_role has_any_role
    is_submission_frozen is_any_frozen found_summary parse_all may_act
comment_route_open = refl

comment_route_accepts_example :
    (may_act approve (tester ∷ []) ≡ true)
    × ((approve ≡ comment) ⊎ (is_staff (tester ∷ []) ≡ true))
    × ((is_any_submission_frozen svc request 20 ≡ ok true) × (is_freezer (tester ∷ []) ≡ true)
        ⊎ (is_any_submission_frozen svc request 20 ≡ ok false)
          × ((is_staff (tester ∷ []) ≡ true)
              ⊎ (user_owns_all_submissions svc request 20 ≡ ok true)))
comment_route_accepts_example =
    comment_route_accepts svc request 20 (tester ∷ []) approve refl refl comment_route_open

may_act_iff_example : (may_act approve (tester ∷ []) ≡ true) ↔ IsPermitted approve (tester ∷ [])
may_act_iff_example = may_act_iff approve (tester ∷ [])

abbrev authorizers : List Authorizer
authorizers = user_can_comment_action svc ∷ is_staff_user svc ∷ []

-- A token of two scopes.
abbrev two_scopes : String → List String
two_scopes token = "identity" ∷ "submission:read" ∷ []

request_scope_iff_example :
    (request_scope two_scopes "submission:read" "identity submission:read" ≡ next)
    ↔ IsGranted two_scopes "submission:read" "identity submission:read"
request_scope_iff_example =
    request_scope_iff two_scopes "submission:read" "identity submission:read"

file_child_example :
    (submission_owns_child_resource svc file_key request 20 ≡ ok true)
    ↔ ((f : FileInfo) × (svc.get_submission_file 1 ≡ ok (some f)) × (f.submission_id ≡ 7))
file_child_example = file_child svc request 20 7 1 refl refl

user_has_all_roles_iff_example :
    (user_has_all_roles svc (tester ∷ curator ∷ []) request 20 ≡ ok true) ↔ (
      (roles : List Role) × (svc.get_user_roles 20 ≡ ok roles)
      × All (IsAmong (tester ∷ curator ∷ [])) roles)
user_has_all_roles_iff_example = user_has_all_roles_iff svc (tester ∷ curator ∷ []) request 20

frozen_details_iff_example :
    (can_read_submission_details svc 10 8 ≡ ok true)
    ↔ ((uploader ≢ 0) × ((is_freezer [] ≡ true) ⊎ (uid_in 10 (10 ∷ []) ≡ true)))
frozen_details_iff_example =
    frozen_details_iff svc 10 8 (record approved_scan { submission_id = 8; is_frozen = true }) [] []
      (10 ∷ []) refl refl refl refl

details_open : can_read_submission_details svc 30 8 ≡ ok true
unfolding can_read_submission_details can_read_frozen_submission unless_frozen is_freezer
    has_any_role
details_open = refl

download_parsed : parse_all "invalid file id" request.file_ids ≡ ok (1 ∷ [])
unfolding parse_all
download_parsed = refl

download_open : user_can_read_submission_details svc true request 20 ≡ ok true
unfolding user_can_read_submission_details can_read_some can_read_all parents
    can_read_submission_details unless_frozen parse_all uid_in
download_open = refl

batch_needs_every_parent_example : (found_files ≢ []) × AllReadable svc 20 found_files
batch_needs_every_parent_example =
    batch_needs_every_parent svc request 20 (1 ∷ []) found_files download_parsed refl download_open

lock_order-IsAscending_example :
    IsAscending (lock_order (9 ∷ 7 ∷ 9 ∷ []))
    × (uid_in 7 (lock_order (9 ∷ 7 ∷ 9 ∷ [])) ≡ uid_in 7 (9 ∷ 7 ∷ 9 ∷ []))
lock_order-IsAscending_example = lock_order-IsAscending (9 ∷ 7 ∷ 9 ∷ []) 7

-- A codec for one state, and a keeper that holds another.
abbrev login : State
login = record { nonce = "4f9a"; dest = "/web/submissions" }

abbrev codec : Codec
codec = record {
  encode = λ s. str_append s.nonce s.dest;
  decode = λ b. if str_eq b "4f9a/web/submissions" then some login else none;
}

abbrev keeper : StateKeeper
keeper = record { states = ("77c1", 5) ∷ []; expiration = 30 }

clean_lem_example : clean keeper ≡ keeper
clean_lem_example = clean_lem keeper

login_made : (generate codec (some login.nonce) 9 login.dest keeper).0 ≡ some "4f9a/web/submissions"
unfolding generate
login_made = refl

consume-generate_example :
    ((consume codec "4f9a/web/submissions"
        (generate codec (some login.nonce) 9 login.dest keeper).1).0
      ≡ (login.dest, true))
    × ((consume codec "4f9a/web/submissions"
          (consume codec "4f9a/web/submissions"
            (generate codec (some login.nonce) 9 login.dest keeper).1).1).0
        ≡ (login.dest, false))
consume-generate_example =
    consume-generate codec login 9 keeper "4f9a/web/submissions" refl login_made
