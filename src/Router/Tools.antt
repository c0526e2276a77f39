-- ===== src/Router/Tools.antt =====
-- transport/router.go: the routes of files, deletion, freezing, statistics and tools.
use flashpoint_submission_sy.Prelude.{false, some, List, [], ◌∷◌}
use flashpoint_submission_sy.Transport.Request.{Service}
use flashpoint_submission_sy.Transport.Combinators.{mux_any, mux_all, mux_not}
use flashpoint_submission_sy.Transport.Roles.{
  is_staff_user, is_trial_curator_user, is_freezer_user, is_in_audit_user, is_god_user,
}
use flashpoint_submission_sy.Transport.Scopes.{auth_scope_all}
use flashpoint_submission_sy.Router.Gates.{web, json, binary}
use flashpoint_submission_sy.Router.Routes.{
  Route, route, is_deleter_user, is_colin_user, submission_owns_file, submission_owns_comment,
  submission_owns_curation_image, submission_is_frozen, can_read_submission_details_user,
  can_read_submission_files_user, can_read_submission_meta_user, user_auth, auth_scope_users_read,
  auth_scope_submission_read, auth_scope_submission_read_files, auth_scope_submission_upload,
  auth_scope_game_read, developer_tag_desc_from_validator, game_image_file,
  download_submission_file, download_submission_batch, download_curation_image,
  soft_delete_submission_file, soft_delete_submission, soft_delete_comment, override_bot,
  freeze_submission, unfreeze_submission, get_activity_events, user_activity_page,
  get_all_user_statistics, get_users, get_user_statistics, user_ban, get_upload_progress,
  internal_page, recompute_submission_cache_all, application_cache_stats, delete_user_sessions,
  force_approve_submission, force_verify_submission, send_reminders_about_requested_changes,
  nuke_session_table, stat,
}

unfoldable pub file_routes : Service → List Route
file_routes svc =
    route ("GET" ∷ []) "/api/developer/tag_desc_from_validator" web false (some auth_scope_all)
      (user_auth (mux_any (is_god_user svc ∷ is_colin_user ∷ []) ∷ []))
      developer_tag_desc_from_validator
    ∷ route ("GET" ∷ []) "/data/game/image/{long-file:.*}" binary false (some auth_scope_game_read)
        (user_auth []) game_image_file
    ∷ route ("GET" ∷ []) "/data/submission/{submission-id}/file/{file-id}" binary false
        (some auth_scope_submission_read_files)
        (user_auth (submission_owns_file svc ∷ can_read_submission_details_user svc ∷ []))
        download_submission_file
    ∷ route ("GET" ∷ []) "/data/submission-file-batch/{file-ids}" binary false
        (some auth_scope_submission_read_files)
        (user_auth (can_read_submission_files_user svc ∷ [])) download_submission_batch
    ∷ route ("GET" ∷ []) "/data/submission/{submission-id}/curation-image/{curation-image-id}.png"
        binary false (some auth_scope_submission_read)
        (user_auth (submission_owns_curation_image svc ∷ can_read_submission_meta_user svc ∷ []))
        download_curation_image
    ∷ route ("DELETE" ∷ []) "/api/submission/{submission-id}/file/{file-id}" json false
        (some auth_scope_all)
        (user_auth (
          submission_owns_file svc
          ∷ mux_all (mux_not (submission_is_frozen svc) ∷ is_deleter_user svc ∷ [])
          ∷ []))
        soft_delete_submission_file
    ∷ route ("DELETE" ∷ []) "/api/submission/{submission-id}" json false (some auth_scope_all)
        (user_auth (mux_all (mux_not (submission_is_frozen svc) ∷ is_deleter_user svc ∷ []) ∷ []))
        soft_delete_submission
    ∷ route ("DELETE" ∷ []) "/api/submission/{submission-id}/comment/{comment-id}" json false
        (some auth_scope_all)
        (user_auth (
          submission_owns_comment svc
          ∷ mux_all (mux_not (submission_is_frozen svc) ∷ is_deleter_user svc ∷ [])
          ∷ []))
        soft_delete_comment
    ∷ route ("POST" ∷ []) "/api/submission/{submission-id}/override" json false
        (some auth_scope_all)
        (user_auth (
          mux_not (submission_is_frozen svc)
          ∷ mux_any (is_deleter_user svc ∷ is_staff_user svc ∷ [])
          ∷ []))
        override_bot
    ∷ route ("POST" ∷ []) "/api/submission/{submission-id}/freeze" json false (some auth_scope_all)
        (user_auth (mux_all (is_freezer_user svc ∷ []) ∷ [])) freeze_submission
    ∷ route ("POST" ∷ []) "/api/submission/{submission-id}/unfreeze" json false
        (some auth_scope_all) (user_auth (mux_all (is_freezer_user svc ∷ []) ∷ []))
        unfreeze_submission
    ∷ []

unfoldable pub tool_routes : Service → List Route
tool_routes svc =
    route ("GET" ∷ []) "/api/activity-events" json false (some auth_scope_all)
      (user_auth (mux_any (is_staff_user svc ∷ []) ∷ [])) get_activity_events
    ∷ route ("GET" ∷ []) "/web/user-activity" json false (some auth_scope_all)
        (user_auth (mux_any (is_staff_user svc ∷ []) ∷ [])) user_activity_page
    ∷ route ("GET" ∷ []) "/api/user-statistics/all" json false (some auth_scope_users_read)
        (user_auth (
          mux_any (is_staff_user svc ∷ is_trial_curator_user svc ∷ is_in_audit_user svc ∷ []) ∷ []))
        get_all_user_statistics
    ∷ route ("GET" ∷ []) "/api/users" json false (some auth_scope_users_read)
        (user_auth (
          mux_any (is_staff_user svc ∷ is_trial_curator_user svc ∷ is_in_audit_user svc ∷ []) ∷ []))
        get_users
    ∷ route ("GET" ∷ []) "/api/user-statistics/{user-id}" json false (some auth_scope_users_read)
        (user_auth (
          mux_any (is_staff_user svc ∷ is_trial_curator_user svc ∷ is_in_audit_user svc ∷ []) ∷ []))
        get_user_statistics
    ∷ route ("POST" ∷ []) "/api/user/{user-id}/ban" json false (some auth_scope_all)
        (user_auth (mux_any (is_deleter_user svc ∷ []) ∷ [])) user_ban
    ∷ route ("GET" ∷ []) "/api/upload-status/{temp-name}" json false
        (some auth_scope_submission_upload)
        (user_auth (
          mux_any (is_staff_user svc ∷ is_trial_curator_user svc ∷ is_in_audit_user svc ∷ []) ∷ []))
        get_upload_progress
    ∷ route ("GET" ∷ []) "/web/internal" web false (some auth_scope_all)
        (user_auth (is_god_user svc ∷ [])) internal_page
    ∷ route ("POST" ∷ []) "/api/internal/recompute-submission-cache-all" web false
        (some auth_scope_all) (user_auth (is_god_user svc ∷ [])) recompute_submission_cache_all
    ∷ route ("GET" ∷ []) "/api/internal/application-cache-stats" json false (some auth_scope_all)
        (user_auth (is_god_user svc ∷ [])) application_cache_stats
    ∷ route ("POST" ∷ []) "/api/internal/delete-user-sessions" web false (some auth_scope_all)
        (user_auth (is_god_user svc ∷ [])) delete_user_sessions
    ∷ route ("POST" ∷ []) "/api/internal/approve-submission" web false (some auth_scope_all)
        (user_auth (is_god_user svc ∷ [])) force_approve_submission
    ∷ route ("POST" ∷ []) "/api/internal/verify-submission" web false (some auth_scope_all)
        (user_auth (is_god_user svc ∷ [])) force_verify_submission
    ∷ route ("POST" ∷ []) "/api/internal/send-reminders-about-requested-changes" web false
        (some auth_scope_all) (user_auth (is_god_user svc ∷ []))
        send_reminders_about_requested_changes
    ∷ route ("POST" ∷ []) "/api/internal/nuke-session-table" web false (some auth_scope_all)
        (user_auth (is_god_user svc ∷ [])) nuke_session_table
    ∷ route ("GET" ∷ []) "/api/stat" json false (some auth_scope_all)
        (user_auth (is_god_user svc ∷ [])) stat
    ∷ []
