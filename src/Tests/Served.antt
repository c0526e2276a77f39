-- ===== src/Tests/Served.antt =====
-- Requests that the router serves (transport/router.go), and the theorems at them.
use flashpoint_submission_sy.Prelude.{◌≡◌, ◌≢◌, ◌↔◌, refl, true, false, none, some, [], ◌∷◌, ok}
use flashpoint_submission_sy.Constants.Roles.{has_any_role}
use flashpoint_submission_sy.Transport.Combinators.{mux_all, mux_not}
use flashpoint_submission_sy.Transport.Scopes.{
  auth_scope_all, request_scope, scope_is_valid, request_typed,
}
use flashpoint_submission_sy.Transport.Roles.{user_has_any_role}
use flashpoint_submission_sy.Transport.Ownership.{found_summary}
use flashpoint_submission_sy.Transport.Frozen.{is_resource_frozen, is_submission_frozen}
use flashpoint_submission_sy.Router.Gates.{
  Decoder, Config, Sender, AuthInfo, json, web, reached, user_auth_mux, session_of, sender_secret,
  authorize, scoped,
}
use flashpoint_submission_sy.Router.Routes.{
  Route, route, user_auth, admin_pass, soft_delete_submission, developer_dump_upload,
  submission_is_frozen, is_deleter_user,
}
use flashpoint_submission_sy.Router.Pages.{page_routes, profile_routes}
use flashpoint_submission_sy.Router.Games.{game_page_routes, game_routes}
use flashpoint_submission_sy.Router.Submissions.{submission_routes, receiver_routes}
use flashpoint_submission_sy.Router.Tools.{file_routes, tool_routes}
use flashpoint_submission_sy.Router.Served.{routes, serve, pass_gate}
use flashpoint_submission_sy.Router.Guarded.{AllAccept, IsInScope, user_auth_mux_iff}
use flashpoint_submission_sy.Router.Unfrozen.{route_at, changes_unfrozen}
use flashpoint_submission_sy.Router.AdminPass.{admin_pass_unreachable}
use flashpoint_submission_sy.Tests.Routes.{svc, request}

-- User 30 is an administrator, with a session for everything.
abbrev admin_info : AuthInfo
admin_info = record { uid = 30; scope = "all" }

abbrev decoder : Decoder
decoder = record {
  split_space = λ s. s ∷ [];
  decode_string = λ s. none;
  unmarshal = λ s. none;
  get_session_auth_info = λ s. ok (some admin_info);
}

abbrev normal : Config
normal = record {
  source_only_mode = false;
  source_only_admin_mode = false;
  admin_mode_password = "p";
}

abbrev admin_mode : Config
admin_mode = record {
  source_only_mode = true;
  source_only_admin_mode = true;
  admin_mode_password = "p";
}

abbrev sender : Sender
sender = record { authorization = ""; api_key = "p"; cookie_secret = some "s" }

abbrev deletion : Route
deletion =
    route ("DELETE" ∷ []) "/api/submission/{submission-id}" json false (some auth_scope_all)
      (user_auth (mux_all (mux_not (submission_is_frozen svc) ∷ is_deleter_user svc ∷ []) ∷ []))
      soft_delete_submission

abbrev dump : Route
dump =
    route ("POST" ∷ []) "/api/developer/submit_dump" web true (some auth_scope_all) admin_pass
      developer_dump_upload

deletion_at : route_at 84 (routes normal svc) ≡ some deletion
unfolding route_at routes page_routes profile_routes game_page_routes game_routes submission_routes
    receiver_routes file_routes tool_routes
deletion_at = refl

-- In the admin mode the upload of a dump stands behind the password.
dump_at : route_at 77 (routes admin_mode svc) ≡ some dump
unfolding route_at routes page_routes profile_routes game_page_routes game_routes submission_routes
    receiver_routes file_routes tool_routes
dump_at = refl

deletion_served : serve decoder normal deletion sender request ≡ reached (some admin_info)
unfolding serve request_typed pass_gate user_auth_mux session_of sender_secret authorize scoped
    request_scope scope_is_valid mux_all mux_not submission_is_frozen is_deleter_user
    user_has_any_role is_resource_frozen is_submission_frozen found_summary has_any_role
deletion_served = refl

changes_unfrozen_example :
    (info : AuthInfo) × (some admin_info ≡ some info)
    × (submission_is_frozen svc request info.uid ≡ ok false)
changes_unfrozen_example =
    changes_unfrozen decoder normal svc 84 deletion sender request (some admin_info) deletion_at
      refl deletion_served

user_auth_mux_iff_example :
    (user_auth_mux decoder json (is_deleter_user svc ∷ []) (some "all") sender request
      ≡ reached (some admin_info))
    ↔ ((info : AuthInfo) × (session_of decoder (sender_secret decoder sender) ≡ some info)
        × AllAccept (is_deleter_user svc ∷ []) request info.uid
        × IsInScope decoder (some "all") info.scope
        × (some admin_info ≡ some info))
user_auth_mux_iff_example =
    user_auth_mux_iff decoder json (is_deleter_user svc ∷ []) (some "all") sender request
      (some admin_info)

admin_pass_unreachable_example : serve decoder admin_mode dump sender request ≢ reached none
admin_pass_unreachable_example =
    admin_pass_unreachable decoder admin_mode dump sender request none refl refl refl
