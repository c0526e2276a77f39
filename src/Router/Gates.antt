-- ===== src/Router/Gates.antt =====
-- transport/middlewares.go: how a request reaches a handler: `UserAuthMux`, `OpenMux` and the
-- wrappers around them, with `ParseAuthToken` (service/siteservice.go). That a refusal also unsets the
-- login cookie is left out.
use package.text.Mathlib.Text.{◌==◌ as str_eq}
use flashpoint_submission_sy.Prelude.{
  ℕ, String, Bool, true, false, Option, none, some, List, [], ◌∷◌, if◌then◌else◌, Result, ok, err,
  unauthorized,
}
use flashpoint_submission_sy.Transport.Request.{Request, Authorizer}
use flashpoint_submission_sy.Transport.Scopes.{next, answer, request_scope}

pub record AuthInfo : Type 0 where
  pub uid : ℕ
  pub scope : String

-- `strings.Split(s, " ")`, base64 and JSON decoding, and the session of a secret.
pub record Decoder : Type 0 where
  pub split_space : String → List String
  pub decode_string : String → Option String
  pub unmarshal : String → Option (List (String × String))
  pub get_session_auth_info : String → Result (Option AuthInfo)

-- The modes of the server, and the password of the admin mode.
pub record Config : Type 0 where
  pub source_only_mode : Bool
  pub source_only_admin_mode : Bool
  pub admin_mode_password : String

-- What of a request says who sends it: two headers, and the secret that its cookie holds, if any.
pub record Sender : Type 0 where
  pub authorization : String
  pub api_key : String
  pub cookie_secret : Option String

pub data RequestType : Type 0 where
  web json binary : RequestType

unfoldable pub value_of : String → List (String × String) → Option String
value_of key [] = none
value_of key ((k, v) ∷ rest) = if str_eq k key then some v else value_of key rest

-- The secret of the token, where it has both fields.
unfoldable pub parse_auth_token : List (String × String) → Option String
unfolding value_of
parse_auth_token m = elim (value_of "Secret" m) [
  | none ↦ none
  | some secret ↦ elim (value_of "userID" m) [ none ↦ none | some user ↦ some secret ]
]

unfoldable pub bearer_secret : Decoder → List String → Option String
unfolding parse_auth_token
bearer_secret d [] = none
bearer_secret d (scheme ∷ []) = none
bearer_secret d (scheme ∷ token ∷ []) =
    if str_eq scheme "Bearer"
    then (elim (d.decode_string token) [
      | none ↦ none
      | some bytes ↦ elim (d.unmarshal bytes) [ none ↦ none | some m ↦ parse_auth_token m ]
    ])
    else none
bearer_secret d (scheme ∷ token ∷ more ∷ rest) = none

unfoldable pub sender_secret : Decoder → Sender → Option String
unfolding bearer_secret
sender_secret d s =
    if str_eq s.authorization ""
    then s.cookie_secret
    else bearer_secret d (d.split_space s.authorization)

-- The session of a secret that there may not be.
unfoldable pub session_of : Decoder → Option String → Option AuthInfo
session_of d none = none
session_of d (some secret) = elim (d.get_session_auth_info secret) [ err e ↦ none | ok info ↦ info ]

-- The handler is called with the user, if any, or the request is answered.
pub data Outcome : Type 0 where
  reached : Option AuthInfo → Outcome
  answered : ℕ → Outcome
  redirected : Outcome

unfoldable pub handle_auth_err : RequestType → Outcome
handle_auth_err web = redirected
handle_auth_err json = answered unauthorized
handle_auth_err binary = answered unauthorized

-- The scope that the context holds.
abbrev pub context_scope : Option AuthInfo → String
context_scope none = ""
context_scope (some info) = info.scope

-- `RequestScope`, where a route has one.
unfoldable pub scoped : Decoder → Option String → Option AuthInfo → Outcome
scoped d none info = reached info
scoped d (some scope) info = elim (request_scope d.split_space scope (context_scope info)) [
  | next ↦ reached info
  | answer status ↦ answered status
]

-- The authorizers in turn: an error is answered with 500, a refusal with 401.
unfoldable pub authorize : List Authorizer → Request → ℕ → Outcome → Outcome
authorize [] r uid granted = granted
authorize (a ∷ as_) r uid granted =
    let rest = authorize as_ r uid granted in
    elim (a r uid) [
      | err e ↦ answered 500
      | ok allowed ↦ elim allowed [ true ↦ rest | false ↦ answered unauthorized ]
    ]

unfoldable pub user_auth_mux :
    Decoder → RequestType → List Authorizer → Option String → Sender → Request → Outcome
unfolding session_of sender_secret authorize scoped handle_auth_err
user_auth_mux d kind authorizers scope s r = elim (session_of d (sender_secret d s)) [
  | none ↦ handle_auth_err kind
  | some info ↦ authorize authorizers r info.uid (scoped d scope (some info))
]

-- An empty secret is none for `OpenMux`, which lets everyone through.
unfoldable pub open_mux : Decoder → Option String → Sender → Outcome
unfolding session_of sender_secret scoped
open_mux d scope s = elim (sender_secret d s) [
  | none ↦ scoped d scope none
  | some secret ↦ scoped d scope (if str_eq secret "" then none else session_of d (some secret))
]
