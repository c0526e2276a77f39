-- ===== src/Router/Pages.antt =====
-- transport/router.go: the routes of the index, the logins, the profile and the tags.
use flashpoint_submission_sy.Prelude.{true, false, none, some, List, [], ◌∷◌, if◌then◌else◌}
use flashpoint_submission_sy.Transport.Request.{Service}
use flashpoint_submission_sy.Transport.Combinators.{mux_any}
use flashpoint_submission_sy.Transport.Roles.{
  is_staff_user, is_trial_curator_user, is_in_audit_user,
}
use flashpoint_submission_sy.Transport.Scopes.{auth_scope_all}
use flashpoint_submission_sy.Router.Gates.{Config, web, json}
use flashpoint_submission_sy.Router.Routes.{
  Route, route, is_deleter_user, anyone, user_auth, auth_scope_identity,
  auth_scope_profile_apps_read, auth_scope_submission_read, auth_scope_submission_upload,
  auth_scope_tag_edit, auth_scope_index_read, index_request, discord_auth, discord_callback, logout,
  oauth_authorize, oauth_token, oauth_device, oauth_device_response, get_server_user,
  get_open_id_configuration, root_page, source_only_notice, submit_page, help_page, profile_page,
  sessions_page, session_page, owned_client_applications, owned_client_application,
  submissions_page, tags_page, post_tag, tag_page, tag_edit_page,
}

unfoldable pub page_routes : Config → Service → List Route
page_routes config svc =
    route ("GET" ∷ []) "/index" web false (some auth_scope_index_read)
      (user_auth (mux_any (is_staff_user svc ∷ is_trial_curator_user svc ∷ []) ∷ [])) index_request
    ∷ route ("GET" ∷ []) "/auth" web false none anyone discord_auth
    ∷ route ("GET" ∷ []) "/auth/callback" web false none anyone discord_callback
    ∷ route ("GET" ∷ []) "/api/logout" json false none anyone logout
    ∷ route ("GET" ∷ "POST" ∷ []) "/auth/authorize" web false none (user_auth []) oauth_authorize
    ∷ route ("POST" ∷ []) "/auth/token" json false none anyone oauth_token
    ∷ route ("GET" ∷ []) "/auth/device" web false (some auth_scope_all)
        (user_auth (
          mux_any (is_staff_user svc ∷ is_trial_curator_user svc ∷ is_in_audit_user svc ∷ []) ∷ []))
        oauth_device
    ∷ route ("POST" ∷ []) "/auth/device" json false none anyone oauth_device
    ∷ route ("POST" ∷ []) "/auth/device/respond" web false (some auth_scope_all)
        (user_auth (
          mux_any (is_staff_user svc ∷ is_trial_curator_user svc ∷ is_in_audit_user svc ∷ []) ∷ []))
        oauth_device_response
    ∷ route ("GET" ∷ []) "/api/server-user/{user-id}" json false none (user_auth []) get_server_user
    ∷ route ("GET" ∷ []) "/.well-known/openid-configuration" json false none anyone
        get_open_id_configuration
    ∷ (if config.source_only_mode
        then route ("GET" ∷ []) "/" web true none anyone source_only_notice
        else route ("GET" ∷ []) "/" web false none anyone root_page)
    ∷ route ("GET" ∷ []) "/web" web false none anyone root_page
    ∷ route ("GET" ∷ []) "/web/submit" web false (some auth_scope_submission_upload)
        (user_auth (
          mux_any (is_staff_user svc ∷ is_trial_curator_user svc ∷ is_in_audit_user svc ∷ []) ∷ []))
        submit_page
    ∷ route ("GET" ∷ []) "/web/help" web false none anyone help_page
    ∷ []

unfoldable pub profile_routes : Service → List Route
profile_routes svc =
    route ("GET" ∷ []) "/web/profile" web false (some auth_scope_identity) (user_auth [])
      profile_page
    ∷ route ("GET" ∷ []) "/api/profile" json false (some auth_scope_identity) (user_auth [])
        profile_page
    ∷ route ("GET" ∷ []) "/api/profile/sessions" json false (some auth_scope_all) (user_auth [])
        sessions_page
    ∷ route ("DELETE" ∷ []) "/api/profile/session/{session-id}" json false (some auth_scope_all)
        (user_auth []) session_page
    ∷ route ("GET" ∷ []) "/api/profile/apps" json false (some auth_scope_profile_apps_read)
        (user_auth []) owned_client_applications
    ∷ route ("POST" ∷ []) "/api/profile/app/{client-app-id}/generate-secret" json false
        (some auth_scope_all) (user_auth []) owned_client_application
    ∷ route ("GET" ∷ []) "/web/submissions" web false (some auth_scope_submission_read)
        (user_auth (
          mux_any (is_staff_user svc ∷ is_trial_curator_user svc ∷ is_in_audit_user svc ∷ []) ∷ []))
        submissions_page
    ∷ route ("GET" ∷ []) "/api/submissions" json false (some auth_scope_submission_read)
        (user_auth (
          mux_any (is_staff_user svc ∷ is_trial_curator_user svc ∷ is_in_audit_user svc ∷ []) ∷ []))
        submissions_page
    ∷ route ("GET" ∷ []) "/web/tags" web true none anyone tags_page
    ∷ route ("GET" ∷ []) "/api/tags" json true none anyone tags_page
    ∷ route ("POST" ∷ []) "/api/tag/{tag-id}" json false (some auth_scope_tag_edit)
        (user_auth (mux_any (is_deleter_user svc ∷ []) ∷ [])) post_tag
    ∷ route ("GET" ∷ []) "/web/tag/{tag-id}" web true none
        (user_auth (
          mux_any (is_staff_user svc ∷ is_trial_curator_user svc ∷ is_in_audit_user svc ∷ []) ∷ []))
        tag_page
    ∷ route ("GET" ∷ []) "/api/tag/{tag-id}" json true none
        (user_auth (
          mux_any (is_staff_user svc ∷ is_trial_curator_user svc ∷ is_in_audit_user svc ∷ []) ∷ []))
        tag_page
    ∷ route ("GET" ∷ []) "/web/tag/{tag-id}/edit" web false (some auth_scope_tag_edit)
        (user_auth (mux_any (is_deleter_user svc ∷ []) ∷ [])) tag_edit_page
    ∷ []
