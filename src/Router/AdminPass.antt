-- ===== src/Router/AdminPass.antt =====
-- `AdminPassAuth` in front of `RequestScope` (transport/middlewares.go, transport/router.go).
use mathlib.Core.Path.{subst}
use flashpoint_submission_sy.Prelude.{◌≡◌, ◌≢◌, Option, none, some, [], ◌∷◌, arith}
use flashpoint_submission_sy.Transport.Request.{Request}
use flashpoint_submission_sy.Transport.Scopes.{auth_scope_all, scope_is_valid, request_scope}
use flashpoint_submission_sy.Router.Gates.{Decoder, Config, Sender, AuthInfo, reached, scoped}
use flashpoint_submission_sy.Router.Routes.{Route, admin_pass}
use flashpoint_submission_sy.Router.Served.{pass_gate, serve}
use flashpoint_submission_sy.Router.Guarded.{passed_gate}

no_scope_refused :
    (d : Decoder) (user : Option AuthInfo)
    → d.split_space "" ≡ "" ∷ []
    → scoped d (some auth_scope_all) none ≢ reached user
unfolding scoped request_scope scope_is_valid
no_scope_refused d user e h = absurd (ground arith)

admin_passed :
    (d : Decoder) (config : Config) (rt : Route) (s : Sender) (r : Request) (user : Option AuthInfo)
    → pass_gate d config admin_pass rt s r ≡ reached user
    → scoped d rt.scope none ≡ reached user
unfolding pass_gate
admin_passed d config rt s r user h = ground arith

-- Where a split text without spaces is one part, a route behind the password of the admin mode whose
-- handler asks for the scope of all is reached by nobody, whatever the mode and the password.
pub admin_pass_unreachable :
    (d : Decoder) (config : Config) (rt : Route) (s : Sender) (r : Request) (user : Option AuthInfo)
    → d.split_space "" ≡ "" ∷ []
    → rt.gate ≡ admin_pass
    → rt.scope ≡ some auth_scope_all
    → serve d config rt s r ≢ reached user
admin_pass_unreachable d config rt s r user split gated scope h =
    let passed =
      subst (λ g. pass_gate d config g rt s r ≡ reached user) gated
        (passed_gate d config rt s r user h) in
    no_scope_refused d user split
      (subst (λ o. scoped d o none ≡ reached user) scope (admin_passed d config rt s r user passed))
