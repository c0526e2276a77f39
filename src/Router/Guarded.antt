-- ===== src/Router/Guarded.antt =====
-- What must hold for a request to reach a handler (transport/router.go, transport/middlewares.go).
use flashpoint_submission_sy.Prelude.{
  ℕ, String, ◌≡◌, refl, sym, ◌≢◌, ◌⊎◌, ◌↔◌, inl, inr, true, Option, Option-cases, none, some, List,
  [], ◌∷◌, All, ok, arith,
}
use flashpoint_submission_sy.Transport.Request.{Request, Authorizer}
use flashpoint_submission_sy.Transport.Scopes.{
  Verdict, next, answer, request_scope, IsGranted, request_scope_iff,
}
use flashpoint_submission_sy.Router.Gates.{
  Decoder, Config, Sender, RequestType, web, json, binary, Outcome, AuthInfo, reached,
  handle_auth_err, scoped, authorize, session_of, sender_secret, user_auth_mux, context_scope,
}
use flashpoint_submission_sy.Router.Routes.{Route}
use flashpoint_submission_sy.Router.Served.{pass_gate, serve}

-- Each authorizer accepts the user.
abbrev pub AllAccept : List Authorizer → Request → ℕ → Type 0
AllAccept authorizers r uid = All (λ a. a r uid ≡ ok true) authorizers

-- The token's scope opens a route that asks for one.
abbrev pub IsInScope : Decoder → Option String → String → Type 0
IsInScope d none token_scope = Unit
IsInScope d (some scope) token_scope = IsGranted d.split_space scope token_scope

Verdict-cases : (v : Verdict) → (v ≡ next) ⊎ ((status : ℕ) × (v ≡ answer status))
Verdict-cases next = inl refl
Verdict-cases (answer status) = inr (status, refl)

authorize_iff :
    (authorizers : List Authorizer) (r : Request) (uid : ℕ) (granted : Outcome)
    (user : Option AuthInfo)
    → (authorize authorizers r uid granted ≡ reached user)
      ↔ (AllAccept authorizers r uid × (granted ≡ reached user))
unfolding authorize
authorize_iff [] r uid granted user = (λ h. (tt, h), λ h. h.1)
authorize_iff (a ∷ as_) r uid granted user = ground (arith, authorize_iff as_ r uid granted user)

scoped_iff :
    (d : Decoder) (scope : Option String) (user user' : Option AuthInfo)
    → (scoped d scope user ≡ reached user')
      ↔ (IsInScope d scope (context_scope user) × (user ≡ user'))
unfolding scoped
scoped_iff d none user user' = ground arith
scoped_iff d (some scope) user user' =
    let granted = request_scope_iff d.split_space scope (context_scope user) in
    elim (Verdict-cases (request_scope d.split_space scope (context_scope user))) [
      | inl e ↦ (λ h. (granted.0 e, ground arith), λ h. ground arith)
      | inr (status, e) ↦
          (λ h. absurd (ground arith), λ h. let q = granted.1 h.0 in absurd (ground arith))
    ]

handle_auth_err-ne-reached :
    (kind : RequestType) (user : Option AuthInfo) → handle_auth_err kind ≢ reached user
unfolding handle_auth_err
handle_auth_err-ne-reached web user h = ground arith
handle_auth_err-ne-reached json user h = ground arith
handle_auth_err-ne-reached binary user h = ground arith

-- Behind `UserAuthMux` a handler is reached exactly when the sender has a session, every authorizer
-- accepts its user, and its scope opens the route; and it is reached as that user.
pub user_auth_mux_iff :
    (d : Decoder) (kind : RequestType) (authorizers : List Authorizer) (scope : Option String)
    (s : Sender) (r : Request) (user : Option AuthInfo)
    → (user_auth_mux d kind authorizers scope s r ≡ reached user) ↔ (
        (info : AuthInfo) × (session_of d (sender_secret d s) ≡ some info)
        × AllAccept authorizers r info.uid
        × IsInScope d scope info.scope
        × (user ≡ some info))
unfolding user_auth_mux
user_auth_mux_iff d kind authorizers scope s r user = (forth, back)
  where
    forth :
        user_auth_mux d kind authorizers scope s r ≡ reached user
        → (info : AuthInfo) × (session_of d (sender_secret d s) ≡ some info)
          × AllAccept authorizers r info.uid
          × IsInScope d scope info.scope
          × (user ≡ some info)
    forth h = elim (Option-cases (session_of d (sender_secret d s))) [
      | inl e ↦ absurd (handle_auth_err-ne-reached kind user (ground arith))
      | inr (info, e) ↦
          let inner = authorize_iff authorizers r info.uid (scoped d scope (some info)) user in
          let (accept, granted) = inner.0 (ground arith) in
          let (in_scope, same) = (scoped_iff d scope (some info) user).0 granted in
          (info, e, accept, in_scope, sym same)
    ]

    back :
        ((info : AuthInfo) × (session_of d (sender_secret d s) ≡ some info)
          × AllAccept authorizers r info.uid
          × IsInScope d scope info.scope
          × (user ≡ some info))
        → user_auth_mux d kind authorizers scope s r ≡ reached user
    back (info, found, accept, in_scope, same) =
        let granted = (scoped_iff d scope (some info) user).1 (in_scope, sym same) in
        rw (found, user_auth_mux)
          ((authorize_iff authorizers r info.uid (scoped d scope (some info)) user).1
            (accept, granted))

-- Behind the check of the mode stands the gate.
pub passed_gate :
    (d : Decoder) (config : Config) (rt : Route) (s : Sender) (r : Request) (user : Option AuthInfo)
    → serve d config rt s r ≡ reached user
    → pass_gate d config rt.gate rt s r ≡ reached user
unfolding serve
passed_gate d config rt s r user h = ground arith
