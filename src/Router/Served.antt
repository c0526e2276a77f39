-- ===== src/Router/Served.antt =====
-- transport/router.go: the whole table in its order, and what a route does with a request.
use flashpoint_submission_sy.Prelude.{none, List, ◌++◌}
use flashpoint_submission_sy.Transport.Request.{Request, Service}
use flashpoint_submission_sy.Transport.Scopes.{next, answer, request_typed, admin_pass_auth}
use flashpoint_submission_sy.Router.Gates.{
  Decoder, Config, Sender, Outcome, answered, scoped, user_auth_mux, open_mux,
}
use flashpoint_submission_sy.Router.Routes.{Route, Gate, anyone, with_user, admin_pass, user_auth}
use flashpoint_submission_sy.Router.Pages.{page_routes, profile_routes}
use flashpoint_submission_sy.Router.Games.{game_page_routes, game_routes}
use flashpoint_submission_sy.Router.Submissions.{submission_routes, receiver_routes}
use flashpoint_submission_sy.Router.Tools.{file_routes, tool_routes}

-- `setupRoutes`, less the static files and the previews.
unfoldable pub routes : Config → Service → List Route
routes config svc =
    page_routes config svc
    ++ (profile_routes svc
        ++ (game_page_routes svc
            ++ (game_routes svc
                ++ (submission_routes svc
                    ++ (receiver_routes config svc ++ (file_routes svc ++ tool_routes svc))))))

-- Behind the check of the mode.
unfoldable pub pass_gate : Decoder → Config → Gate → Route → Sender → Request → Outcome
unfolding scoped user_auth_mux open_mux admin_pass_auth
pass_gate d config anyone route s r = scoped d route.scope none
pass_gate d config with_user route s r = open_mux d route.scope s
pass_gate d config (user_auth authorizers) route s r =
    user_auth_mux d route.request_type authorizers route.scope s r
pass_gate d config admin_pass route s r =
    elim (admin_pass_auth config.source_only_admin_mode s.api_key config.admin_mode_password) [
      | next ↦ scoped d route.scope none
      | answer status ↦ answered status
    ]

unfoldable pub serve : Decoder → Config → Route → Sender → Request → Outcome
unfolding request_typed pass_gate
serve d config route s r = elim (request_typed config.source_only_mode route.slim_service) [
  | next ↦ pass_gate d config route.gate route s r
  | answer status ↦ answered status
]
