-- ===== src/Router/Submissions.antt =====
-- transport/router.go: the routes of submissions and their receivers.
use flashpoint_submission_sy.Prelude.{true, false, none, some, List, [], ◌∷◌, if◌then◌else◌}
use flashpoint_submission_sy.Transport.Request.{Service}
use flashpoint_submission_sy.Transport.Combinators.{mux_any, mux_all, mux_not}
use flashpoint_submission_sy.Transport.Roles.{
  is_staff_user, is_trial_curator_user, is_freezer_user, is_in_audit_user, is_god_user,
}
use flashpoint_submission_sy.Transport.CommentRoute.{
  is_any_submission_frozen, user_owns_all_submissions,
}
use flashpoint_submission_sy.Transport.CommentAction.{user_can_comment_action}
use flashpoint_submission_sy.Transport.Scopes.{auth_scope_all}
use flashpoint_submission_sy.Router.Gates.{Config, web, json}
use flashpoint_submission_sy.Router.Routes.{
  Route, route, is_deleter_user, is_colin_user, user_owns_submission, user_has_no_submissions,
  submission_is_frozen, admin_pass, user_auth, auth_scope_profile_edit, auth_scope_submission_read,
  auth_scope_submission_read_files, auth_scope_submission_edit, auth_scope_submission_upload,
  my_submissions_page, view_submission_page, apply_content_patch_page,
  apply_submission_meta_edit_page, view_submission_files_page, statistics_page,
  user_statistics_page, submission_receiver_resumable, receiver_resumable_test_chunk,
  comment_receiver_batch, update_notification_settings, update_subscription_settings,
  developer_page, developer_dump_upload,
}

unfoldable pub submission_routes : Service → List Route
submission_routes svc =
    route ("GET" ∷ []) "/web/my-submissions" web false (some auth_scope_submission_read)
      (user_auth
        (mux_any (is_staff_user svc ∷ is_trial_curator_user svc ∷ is_in_audit_user svc ∷ []) ∷ []))
      my_submissions_page
    ∷ route ("GET" ∷ []) "/api/my-submissions" json false (some auth_scope_submission_read)
        (user_auth (
          mux_any (is_staff_user svc ∷ is_trial_curator_user svc ∷ is_in_audit_user svc ∷ []) ∷ []))
        my_submissions_page
    ∷ route ("GET" ∷ []) "/web/submission/{submission-id}" web false
        (some auth_scope_submission_read)
        (user_auth (
          mux_any (is_staff_user svc ∷ is_trial_curator_user svc ∷ is_in_audit_user svc ∷ []) ∷ []))
        view_submission_page
    ∷ route ("GET" ∷ []) "/api/submission/{submission-id}" json false
        (some auth_scope_submission_read)
        (user_auth (
          mux_any (is_staff_user svc ∷ is_trial_curator_user svc ∷ is_in_audit_user svc ∷ []) ∷ []))
        view_submission_page
    ∷ route ("GET" ∷ []) "/web/submission/{submission-id}/apply" web false (some auth_scope_all)
        (user_auth (is_deleter_user svc ∷ [])) apply_content_patch_page
    ∷ route ("GET" ∷ []) "/web/submission/{submission-id}/metaedit" web false
        (some auth_scope_submission_edit)
        (user_auth (
          mux_not (submission_is_frozen svc)
          ∷ mux_any (
              is_staff_user svc
              ∷ mux_all (is_trial_curator_user svc ∷ user_owns_submission svc ∷ [])
              ∷ mux_all (is_in_audit_user svc ∷ user_owns_submission svc ∷ [])
              ∷ [])
          ∷ []))
        apply_submission_meta_edit_page
    ∷ route ("POST" ∷ []) "/api/submission/{submission-id}/metaedit" json false
        (some auth_scope_submission_edit)
        (user_auth (
          mux_not (submission_is_frozen svc)
          ∷ mux_any (
              is_staff_user svc
              ∷ mux_all (is_trial_curator_user svc ∷ user_owns_submission svc ∷ [])
              ∷ mux_all (is_in_audit_user svc ∷ user_owns_submission svc ∷ [])
              ∷ [])
          ∷ []))
        apply_submission_meta_edit_page
    ∷ route ("GET" ∷ []) "/web/submission/{submission-id}/files" web false
        (some auth_scope_submission_read_files)
        (user_auth (
          mux_any (is_staff_user svc ∷ is_trial_curator_user svc ∷ is_in_audit_user svc ∷ []) ∷ []))
        view_submission_files_page
    ∷ route ("GET" ∷ []) "/api/submission/{submission-id}/files" json false
        (some auth_scope_submission_read_files)
        (user_auth (
          mux_any (is_staff_user svc ∷ is_trial_curator_user svc ∷ is_in_audit_user svc ∷ []) ∷ []))
        view_submission_files_page
    ∷ route ("GET" ∷ []) "/web/statistics" web false none (user_auth []) statistics_page
    ∷ route ("GET" ∷ []) "/api/statistics" json false none (user_auth []) statistics_page
    ∷ route ("GET" ∷ []) "/web/user-statistics" web false none (user_auth []) user_statistics_page
    ∷ route ("GET" ∷ []) "/api/user-statistics" json false none (user_auth []) user_statistics_page
    ∷ []

unfoldable pub receiver_routes : Config → Service → List Route
receiver_routes config svc =
    route ("POST" ∷ []) "/api/submission-receiver-resumable" json false
      (some auth_scope_submission_upload)
      (user_auth (
        mux_any (
          is_staff_user svc
          ∷ is_trial_curator_user svc
          ∷ mux_all (is_in_audit_user svc ∷ user_has_no_submissions svc ∷ [])
          ∷ [])
        ∷ []))
      submission_receiver_resumable
    ∷ route ("POST" ∷ []) "/api/submission-receiver-resumable/{submission-id}" json false
        (some auth_scope_submission_upload)
        (user_auth (
          mux_not (submission_is_frozen svc)
          ∷ mux_any (
              is_staff_user svc
              ∷ mux_all (is_trial_curator_user svc ∷ user_owns_submission svc ∷ [])
              ∷ mux_all (is_in_audit_user svc ∷ user_owns_submission svc ∷ [])
              ∷ [])
          ∷ []))
        submission_receiver_resumable
    ∷ route ("GET" ∷ []) "/api/submission-receiver-resumable" json false
        (some auth_scope_submission_upload)
        (user_auth (
          mux_any (
            is_staff_user svc
            ∷ is_trial_curator_user svc
            ∷ mux_all (is_in_audit_user svc ∷ user_has_no_submissions svc ∷ [])
            ∷ [])
          ∷ []))
        receiver_resumable_test_chunk
    ∷ route ("GET" ∷ []) "/api/submission-receiver-resumable/{submission-id}" json false
        (some auth_scope_submission_upload)
        (user_auth (
          mux_not (submission_is_frozen svc)
          ∷ mux_any (
              is_staff_user svc
              ∷ mux_all (is_trial_curator_user svc ∷ user_owns_submission svc ∷ [])
              ∷ mux_all (is_in_audit_user svc ∷ user_owns_submission svc ∷ [])
              ∷ [])
          ∷ []))
        receiver_resumable_test_chunk
    ∷ route ("POST" ∷ []) "/api/submission-batch/{submission-ids}/comment" json false
        (some auth_scope_all)
        (user_auth (
          mux_all (
            mux_any (
              mux_all (
                mux_not (is_any_submission_frozen svc)
                ∷ is_staff_user svc
                ∷ user_can_comment_action svc
                ∷ [])
              ∷ mux_all (
                  mux_not (is_any_submission_frozen svc)
                  ∷ is_trial_curator_user svc
                  ∷ user_owns_all_submissions svc
                  ∷ user_can_comment_action svc
                  ∷ [])
              ∷ mux_all (
                  mux_not (is_any_submission_frozen svc)
                  ∷ is_in_audit_user svc
                  ∷ user_owns_all_submissions svc
                  ∷ user_can_comment_action svc
                  ∷ [])
              ∷ mux_all (
                  is_any_submission_frozen svc
                  ∷ is_freezer_user svc
                  ∷ user_can_comment_action svc
                  ∷ [])
              ∷ [])
            ∷ [])
          ∷ []))
        comment_receiver_batch
    ∷ route ("PUT" ∷ []) "/api/notification-settings" json false (some auth_scope_profile_edit)
        (user_auth (
          mux_any (is_staff_user svc ∷ is_trial_curator_user svc ∷ is_in_audit_user svc ∷ []) ∷ []))
        update_notification_settings
    ∷ route ("PUT" ∷ []) "/api/submission/{submission-id}/subscription-settings" json false
        (some auth_scope_profile_edit)
        (user_auth (
          mux_any (is_staff_user svc ∷ is_trial_curator_user svc ∷ is_in_audit_user svc ∷ []) ∷ []))
        update_subscription_settings
    ∷ route ("GET" ∷ []) "/web/developer" web false (some auth_scope_all)
        (user_auth (mux_any (is_god_user svc ∷ is_colin_user ∷ []) ∷ [])) developer_page
    ∷ (if config.source_only_admin_mode
        then route ("POST" ∷ []) "/api/developer/submit_dump" web true (some auth_scope_all)
            admin_pass developer_dump_upload
        else route ("POST" ∷ []) "/api/developer/submit_dump" web false (some auth_scope_all)
            (user_auth (mux_any (is_god_user svc ∷ is_colin_user ∷ []) ∷ [])) developer_dump_upload)
    ∷ []
