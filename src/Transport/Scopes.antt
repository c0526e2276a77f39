-- ===== src/Transport/Scopes.antt =====
-- transport/middlewares.go: `ScopeIsValid` and the wrappers that let a request through or answer it
-- themselves (`RequestScope`, `RequestWeb`, `RequestJSON`, `RequestData`, `AdminPassAuth`).
use text.Mathlib.Text.{◌==◌ as str_eq}
use text.Mathlib.TextEquality.{eq_iff}
use flashpoint_submission_sy.Prelude.{
  ℕ, ◌≡◌, Bool, true, ◌&&◌, ◌||◌, not, List, [], ◌∷◌, arith, any, String, ◌⊎◌, ◌↔◌, if◌then◌else◌,
  forbidden,
}

abbrev pub auth_scope_none : String
auth_scope_none = ""

abbrev pub auth_scope_all : String
auth_scope_all = "all"

-- `strings.Split(tokenScope, " ")` is the argument `split_space`.
unfoldable pub scope_is_valid : (String → List String) → String → String → Bool
scope_is_valid split_space route_scope token_scope =
    if str_eq route_scope auth_scope_none
    then true
    else if str_eq token_scope auth_scope_all
    then true
    else any (λ s. str_eq s route_scope) (split_space token_scope)

-- What a wrapper does: it calls the next handler, or answers with a status.
pub data Verdict : Type 0 where
  next : Verdict
  answer : ℕ → Verdict

unfoldable pub request_scope : (String → List String) → String → String → Verdict
request_scope split_space scope token_scope =
    if scope_is_valid split_space scope token_scope then next else answer forbidden

-- `RequestWeb`, `RequestJSON` and `RequestData` differ in the request type that they set.
unfoldable pub request_typed : Bool → Bool → Verdict
request_typed source_only_mode slim_service =
    if not source_only_mode || slim_service then next else answer forbidden

unfoldable pub admin_pass_auth : Bool → String → String → Verdict
admin_pass_auth source_only_admin_mode api_key password =
    if source_only_admin_mode && str_eq api_key password then next else answer forbidden

-- One of the scopes of a token.
abbrev pub IsListed : String → List String → Type 0
IsListed scope [] = ⊥
IsListed scope (s ∷ rest) = (s ≡ scope) ⊎ IsListed scope rest

any-IsListed :
    (scope : String) (scopes : List String)
    → (any (λ s. str_eq s scope) scopes ≡ true → IsListed scope scopes)
      × (IsListed scope scopes → any (λ s. str_eq s scope) scopes ≡ true)
any-IsListed scope [] = (λ h. cc, λ h. absurd h)
any-IsListed scope (s ∷ rest) = ground (arith, any-IsListed scope rest, eq_iff s scope)

-- What opens a route: it asks for no scope, or the token has the scope of all, or the token lists the
-- route's scope.
abbrev pub IsGranted : (String → List String) → String → String → Type 0
IsGranted split_space scope token_scope =
    (scope ≡ auth_scope_none)
    ⊎ ((token_scope ≡ auth_scope_all) ⊎ IsListed scope (split_space token_scope))

-- A route is reached exactly when it asks for no scope, the token has the scope of all, or the token
-- lists the route's scope.
pub request_scope_iff :
    (split_space : String → List String) (scope token_scope : String)
    → (request_scope split_space scope token_scope ≡ next) ↔ IsGranted split_space scope token_scope
unfolding request_scope scope_is_valid
request_scope_iff split_space scope token_scope = ground (
  arith,
  eq_iff scope auth_scope_none,
  eq_iff token_scope auth_scope_all,
  any-IsListed scope (split_space token_scope),
)
