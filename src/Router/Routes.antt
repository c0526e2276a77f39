-- ===== src/Router/Routes.antt =====
-- transport/router.go: the handlers, the scopes (types/auth.go) and the data of a route.
use flashpoint_submission_sy.Prelude.{String, Bool, Option, List}
use flashpoint_submission_sy.Transport.Request.{
  Service, Authorizer, submission_key, file_key, comment_key, curation_image_key,
}
use flashpoint_submission_sy.Constants.Roles.{trial_editor_roles, deleter_roles}
use flashpoint_submission_sy.Prelude.{true, false, ok}
use flashpoint_submission_sy.Transport.Roles.{user_has_any_role, is_colin}
use flashpoint_submission_sy.Transport.Ownership.{
  user_owns_resource, is_user_within_resource_limit, submission_owns_child_resource,
}
use flashpoint_submission_sy.Transport.Frozen.{is_resource_frozen}
use flashpoint_submission_sy.Access.{
  user_can_read_submission_details, user_can_read_submission_meta,
}
use flashpoint_submission_sy.Router.Gates.{RequestType}

-- A constructor for each handler, `Handle` left out.
pub data Handler : Type 0 where
  index_request discord_auth discord_callback logout oauth_authorize oauth_token : Handler
  oauth_device oauth_device_response get_server_user get_open_id_configuration : Handler
  root_page source_only_notice submit_page help_page profile_page sessions_page : Handler
  session_page owned_client_applications owned_client_application submissions_page : Handler
  tags_page post_tag tag_page tag_edit_page metadata_stats min_launcher_version : Handler
  game_count_since_date games_page deleted_games fetch_games platforms_page : Handler
  game_page game_changelog game_data_index_page game_data_edit_page delete_game : Handler
  restore_game game_logo game_screenshot freeze_game unfreeze_game game_redirects : Handler
  matching_index_hash matching_index_path my_submissions_page view_submission_page : Handler
  apply_content_patch_page apply_submission_meta_edit_page : Handler
  view_submission_files_page statistics_page user_statistics_page : Handler
  submission_receiver_resumable receiver_resumable_test_chunk : Handler
  comment_receiver_batch update_notification_settings update_subscription_settings : Handler
  developer_page developer_dump_upload developer_tag_desc_from_validator : Handler
  game_image_file download_submission_file download_submission_batch : Handler
  download_curation_image soft_delete_submission_file soft_delete_submission : Handler
  soft_delete_comment override_bot freeze_submission unfreeze_submission : Handler
  get_activity_events user_activity_page get_all_user_statistics get_users : Handler
  get_user_statistics user_ban get_upload_progress internal_page : Handler
  recompute_submission_cache_all application_cache_stats delete_user_sessions : Handler
  force_approve_submission force_verify_submission : Handler
  send_reminders_about_requested_changes nuke_session_table stat : Handler

abbrev pub auth_scope_identity : String
auth_scope_identity = "identity"

abbrev pub auth_scope_profile_edit : String
auth_scope_profile_edit = "profile:edit"

abbrev pub auth_scope_profile_apps_read : String
auth_scope_profile_apps_read = "profile:apps:read"

abbrev pub auth_scope_users_read : String
auth_scope_users_read = "users:read"

abbrev pub auth_scope_submission_read : String
auth_scope_submission_read = "submission:read"

abbrev pub auth_scope_submission_read_files : String
auth_scope_submission_read_files = "submission:read-files"

abbrev pub auth_scope_submission_edit : String
auth_scope_submission_edit = "submission:edit"

abbrev pub auth_scope_submission_upload : String
auth_scope_submission_upload = "submission:upload"

abbrev pub auth_scope_tag_edit : String
auth_scope_tag_edit = "tag:edit"

abbrev pub auth_scope_game_data_read : String
auth_scope_game_data_read = "game-data:read"

abbrev pub auth_scope_game_data_edit : String
auth_scope_game_data_edit = "game-data:edit"

abbrev pub auth_scope_game_read : String
auth_scope_game_read = "game:read"

abbrev pub auth_scope_game_edit : String
auth_scope_game_edit = "game:edit"

abbrev pub auth_scope_index_read : String
auth_scope_index_read = "index:read"

abbrev pub auth_scope_redirect_edit : String
auth_scope_redirect_edit = "redirect:edit"

-- How a handler is guarded: not at all, by `OpenMux`, by `UserAuthMux` with its authorizers, or by
-- `AdminPassAuth`.
pub data Gate : Type 0 where
  anyone with_user admin_pass : Gate
  user_auth : List Authorizer → Gate

-- `scope` is none where the handler stands without `RequestScope`. A path is kept as its template.
pub record Route : Type 0 where
  pub methods : List String
  pub path : String
  pub request_type : RequestType
  pub slim_service : Bool
  pub scope : Option String
  pub gate : Gate
  pub handler : Handler

abbrev pub route :
    List String → String → RequestType → Bool → Option String → Gate → Handler → Route
route methods path request_type slim_service scope gate handler = record {
  methods = methods;
  path = path;
  request_type = request_type;
  slim_service = slim_service;
  scope = scope;
  gate = gate;
  handler = handler;
}

-- The authorizers of the top of the file that the comment route does not use.
unfoldable pub is_trial_editor_user : Service → Authorizer
is_trial_editor_user svc = user_has_any_role svc trial_editor_roles

unfoldable pub is_deleter_user : Service → Authorizer
is_deleter_user svc = user_has_any_role svc deleter_roles

unfoldable pub is_colin_user : Authorizer
is_colin_user r uid = ok (is_colin uid)

unfoldable pub user_owns_submission : Service → Authorizer
user_owns_submission svc = user_owns_resource svc submission_key

unfoldable pub user_has_no_submissions : Service → Authorizer
user_has_no_submissions svc = is_user_within_resource_limit svc submission_key 1

unfoldable pub submission_owns_file : Service → Authorizer
submission_owns_file svc = submission_owns_child_resource svc file_key

unfoldable pub submission_owns_comment : Service → Authorizer
submission_owns_comment svc = submission_owns_child_resource svc comment_key

unfoldable pub submission_owns_curation_image : Service → Authorizer
submission_owns_curation_image svc = submission_owns_child_resource svc curation_image_key

unfoldable pub submission_is_frozen : Service → Authorizer
submission_is_frozen svc = is_resource_frozen svc submission_key

unfoldable pub can_read_submission_details_user : Service → Authorizer
can_read_submission_details_user svc = user_can_read_submission_details svc false

unfoldable pub can_read_submission_files_user : Service → Authorizer
can_read_submission_files_user svc = user_can_read_submission_details svc true

unfoldable pub can_read_submission_meta_user : Service → Authorizer
can_read_submission_meta_user svc = user_can_read_submission_meta svc
