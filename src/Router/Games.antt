-- ===== src/Router/Games.antt =====
-- transport/router.go: the routes of games, platforms and redirects.
use flashpoint_submission_sy.Prelude.{true, false, none, some, List, [], ◌∷◌}
use flashpoint_submission_sy.Transport.Request.{Service}
use flashpoint_submission_sy.Transport.Combinators.{mux_any}
use flashpoint_submission_sy.Transport.Roles.{is_staff_user, is_trial_curator_user, is_freezer_user}
use flashpoint_submission_sy.Transport.Scopes.{auth_scope_all}
use flashpoint_submission_sy.Router.Gates.{web, json}
use flashpoint_submission_sy.Router.Routes.{
  Route, route, is_trial_editor_user, is_deleter_user, anyone, with_user, user_auth,
  auth_scope_game_data_read, auth_scope_game_data_edit, auth_scope_game_read, auth_scope_game_edit,
  auth_scope_index_read, auth_scope_redirect_edit, metadata_stats, min_launcher_version,
  game_count_since_date, games_page, deleted_games, fetch_games, platforms_page, game_page,
  game_changelog, game_data_index_page, game_data_edit_page, delete_game, restore_game, game_logo,
  game_screenshot, freeze_game, unfreeze_game, game_redirects, matching_index_hash,
  matching_index_path,
}

unfoldable pub game_page_routes : Service → List Route
game_page_routes svc =
    route ("GET" ∷ []) "/web/metadata-stats" web true none anyone metadata_stats
    ∷ route ("GET" ∷ []) "/api/min-launcher" json true none anyone min_launcher_version
    ∷ route ("GET" ∷ []) "/api/games/updates" json true none anyone game_count_since_date
    ∷ route ("GET" ∷ []) "/api/games" json true none anyone games_page
    ∷ route ("GET" ∷ []) "/api/games/deleted" json true none anyone deleted_games
    ∷ route ("POST" ∷ []) "/api/games/fetch" json true none anyone fetch_games
    ∷ route ("GET" ∷ []) "/web/platforms" web true none anyone platforms_page
    ∷ route ("GET" ∷ []) "/api/platforms" json true none anyone platforms_page
    ∷ route ("GET" ∷ []) "/web/game/{game-id}" web true (some auth_scope_game_read)
        (user_auth (mux_any (is_staff_user svc ∷ is_trial_editor_user svc ∷ []) ∷ [])) game_page
    ∷ route ("GET" ∷ []) "/api/game/{game-id}" json true (some auth_scope_game_read)
        (user_auth (mux_any (is_staff_user svc ∷ is_trial_editor_user svc ∷ []) ∷ [])) game_page
    ∷ route ("GET" ∷ []) "/api/game/{game-id}/changelog" json false (some auth_scope_game_read)
        (user_auth (mux_any (is_staff_user svc ∷ is_trial_editor_user svc ∷ []) ∷ []))
        game_changelog
    ∷ route ("POST" ∷ []) "/api/game/{game-id}" json false (some auth_scope_game_edit)
        (user_auth (mux_any (is_staff_user svc ∷ is_trial_editor_user svc ∷ []) ∷ [])) game_page
    ∷ route ("GET" ∷ []) "/web/game/{game-id}/data/{game-data-date}/index" web false
        (some auth_scope_game_data_read)
        (user_auth (mux_any (is_trial_curator_user svc ∷ is_staff_user svc ∷ []) ∷ []))
        game_data_index_page
    ∷ route ("GET" ∷ []) "/api/game/{game-id}/data/{game-data-date}/index" json false
        (some auth_scope_game_data_read)
        (user_auth (mux_any (is_trial_curator_user svc ∷ is_staff_user svc ∷ []) ∷ []))
        game_data_index_page
    ∷ route ("GET" ∷ []) "/web/game/{game-id}/data/{game-data-date}/edit" web false
        (some auth_scope_game_data_edit) (user_auth (mux_any (is_staff_user svc ∷ []) ∷ []))
        game_data_edit_page
    ∷ route ("POST" ∷ []) "/web/game/{game-id}/data/{game-data-date}/edit" json false
        (some auth_scope_game_data_edit) (user_auth (mux_any (is_staff_user svc ∷ []) ∷ []))
        game_data_edit_page
    ∷ []

unfoldable pub game_routes : Service → List Route
game_routes svc =
    route ("DELETE" ∷ []) "/api/game/{game-id}" json false (some auth_scope_all)
      (user_auth (mux_any (is_deleter_user svc ∷ []) ∷ [])) delete_game
    ∷ route ("POST" ∷ []) "/api/game/{game-id}/restore" json false (some auth_scope_all)
        (user_auth (mux_any (is_deleter_user svc ∷ []) ∷ [])) restore_game
    ∷ route ("POST" ∷ []) "/api/game/{game-id}/logo" json false (some auth_scope_game_edit)
        (user_auth (mux_any (is_deleter_user svc ∷ []) ∷ [])) game_logo
    ∷ route ("POST" ∷ []) "/api/game/{game-id}/screenshot" json false
        (some auth_scope_game_data_edit) (user_auth (mux_any (is_deleter_user svc ∷ []) ∷ []))
        game_screenshot
    ∷ route ("POST" ∷ []) "/api/game/{game-id}/freeze" json false (some auth_scope_all)
        (user_auth (mux_any (is_freezer_user svc ∷ []) ∷ [])) freeze_game
    ∷ route ("POST" ∷ []) "/api/game/{game-id}/unfreeze" json false (some auth_scope_all)
        (user_auth (mux_any (is_freezer_user svc ∷ []) ∷ [])) unfreeze_game
    ∷ route ("GET" ∷ []) "/web/game-redirects" web true none with_user game_redirects
    ∷ route ("GET" ∷ []) "/api/game-redirects" json true none with_user game_redirects
    ∷ route ("POST" ∷ []) "/api/game-redirects" json true (some auth_scope_redirect_edit)
        (user_auth (mux_any (is_freezer_user svc ∷ []) ∷ [])) game_redirects
    ∷ route ("POST" ∷ []) "/api/index/hash/{hash}" json false (some auth_scope_index_read)
        (user_auth (mux_any (is_staff_user svc ∷ is_trial_curator_user svc ∷ []) ∷ []))
        matching_index_hash
    ∷ route ("POST" ∷ []) "/api/index/path" json false (some auth_scope_index_read)
        (user_auth (mux_any (is_staff_user svc ∷ is_trial_curator_user svc ∷ []) ∷ []))
        matching_index_path
    ∷ []
