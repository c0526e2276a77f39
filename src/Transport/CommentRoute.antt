-- ===== src/Transport/CommentRoute.antt =====
-- transport/router.go: the authorizers of POST /api/submission-batch/{ids}/comment.
use flashpoint_submission_sy.Prelude.{ℕ, ◌≡◌, ◌⊎◌, true, false, some, List, [], ◌∷◌, ok, arith}
use flashpoint_submission_sy.Constants.Actions.{Action, comment}
use flashpoint_submission_sy.Constants.Roles.{Role, is_staff, is_freezer}
use flashpoint_submission_sy.Transport.Request.{Request, Service, Authorizer, submission_ids_key}
use flashpoint_submission_sy.Transport.Combinators.{mux_any, mux_all, mux_not}
use flashpoint_submission_sy.Transport.Roles.{
  is_staff_user, is_trial_curator_user, is_freezer_user, is_in_audit_user,
}
use flashpoint_submission_sy.Transport.Ownership.{user_owns_resource}
use flashpoint_submission_sy.Transport.Frozen.{is_resource_frozen}
use flashpoint_submission_sy.Transport.CommentAction.{
  user_can_comment_action, may_act, may_act-staff,
}

abbrev pub is_any_submission_frozen : Service → Authorizer
is_any_submission_frozen svc = is_resource_frozen svc submission_ids_key

abbrev pub user_owns_all_submissions : Service → Authorizer
user_owns_all_submissions svc = user_owns_resource svc submission_ids_key

unfoldable pub comment_route : Service → Authorizer
comment_route svc = mux_all (
    mux_any (
      mux_all (
        mux_not (is_any_submission_frozen svc)
        ∷ is_staff_user svc
        ∷ user_can_comment_action svc
        ∷ [])
      ∷ mux_all (
          mux_not (is_any_submission_frozen svc)
          ∷ is_trial_curator_user svc
          ∷ user_owns_all_submissions svc
          ∷ user_can_comment_action svc
          ∷ [])
      ∷ mux_all (
          mux_not (is_any_submission_frozen svc)
          ∷ is_in_audit_user svc
          ∷ user_owns_all_submissions svc
          ∷ user_can_comment_action svc
          ∷ [])
      ∷ mux_all
          (is_any_submission_frozen svc ∷ is_freezer_user svc ∷ user_can_comment_action svc ∷ [])
      ∷ [])
    ∷ [])

-- If the user's roles and the form's action are found and the route accepts, then the action is one
-- that the roles allow, and it is a comment or the user is staff; either some submission of the batch is frozen and the user is a freezer, or none is and
-- the user is staff or owns them all.
pub comment_route_accepts :
    (svc : Service) (r : Request) (uid : ℕ) (roles : List Role) (a : Action)
    → svc.get_user_roles uid ≡ ok roles
    → r.form_action ≡ some a
    → comment_route svc r uid ≡ ok true
    → (may_act a roles ≡ true)
      × ((a ≡ comment) ⊎ (is_staff roles ≡ true))
      × ((is_any_submission_frozen svc r uid ≡ ok true) × (is_freezer roles ≡ true)
          ⊎ (is_any_submission_frozen svc r uid ≡ ok false)
            × ((is_staff roles ≡ true) ⊎ (user_owns_all_submissions svc r uid ≡ ok true)))
unfolding comment_route mux_all mux_any mux_not is_staff_user is_trial_curator_user is_freezer_user
    is_in_audit_user user_can_comment_action is_staff is_freezer
comment_route_accepts svc r uid roles a has_roles has_action accepted =
    ground (arith, may_act-staff a roles)
