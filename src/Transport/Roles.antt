-- ===== src/Transport/Roles.antt =====
-- transport/middlewares.go: `UserHasAllRoles`, `UserHasAnyRole`, and the role authorizers of
-- transport/router.go.
use flashpoint_submission_sy.Prelude.{
  ℕ, ◌≡◌, refl, ◌↔◌, ◌⊎◌, inl, inr, All, Result-cases, arith, Bool, true, ◌&&◌, ◌||◌, not, List, [],
  ◌∷◌, any, ok, ◌>>=◌, ◌==◌, if◌then◌else◌,
}
use flashpoint_submission_sy.Constants.Roles.{
  Role, same_role, has_any_role, staff_roles, trial_curator_roles, freezer_roles, god_roles,
}
use flashpoint_submission_sy.Transport.Request.{Request, Service, Authorizer}

-- The nested loops of `UserHasAllRoles`: each role of the user is looked for in the required ones.
unfoldable pub all_required : List Role → List Role → Bool
all_required [] required = true
all_required (role ∷ roles) required = any (same_role role) required && all_required roles required

unfoldable pub user_has_all_roles : Service → List Role → Authorizer
user_has_all_roles svc required r uid =
    svc.get_user_roles uid >>= λ roles. ok (all_required roles required)

unfoldable pub user_has_any_role : Service → List Role → Authorizer
user_has_any_role svc roles r uid =
    svc.get_user_roles uid >>= λ user_roles. ok (has_any_role user_roles roles)

-- `isStaff`, `isTrialCurator`, `isFreezer`, `isInAudit`
unfoldable pub is_staff_user : Service → Authorizer
unfolding user_has_any_role
is_staff_user svc = user_has_any_role svc staff_roles

unfoldable pub is_trial_curator_user : Service → Authorizer
unfolding user_has_any_role
is_trial_curator_user svc = user_has_any_role svc trial_curator_roles

unfoldable pub is_freezer_user : Service → Authorizer
unfolding user_has_any_role
is_freezer_user svc = user_has_any_role svc freezer_roles

unfoldable pub is_in_audit_user : Service → Authorizer
unfolding user_has_any_role
is_in_audit_user svc r uid = user_has_any_role svc staff_roles r uid >>= λ s.
    user_has_any_role svc trial_curator_roles r uid >>= λ t. ok (not (s || t))

-- `isColin`, `isGod`
abbrev pub is_colin : ℕ → Bool
is_colin uid = uid == 689080719460663414

unfoldable pub is_god_user : Service → Authorizer
is_god_user svc r uid = if is_colin uid then ok true else user_has_any_role svc god_roles r uid

same_role_iff : (a b : Role) → (same_role a b ≡ true) ↔ (a ≡ b)
same_role_iff a b = ground arith

-- The role is one of these.
abbrev pub IsAmong : List Role → Role → Type 0
IsAmong [] role = ⊥
IsAmong (r ∷ rs) role = (role ≡ r) ⊎ IsAmong rs role

IsAmong-iff : (rs : List Role) (role : Role) → (any (same_role role) rs ≡ true) ↔ IsAmong rs role
IsAmong-iff [] role = ground arith
IsAmong-iff (r ∷ rs) role = ground (arith, same_role_iff role r, IsAmong-iff rs role)

all_required_iff :
    (required roles : List Role)
    → (all_required roles required ≡ true) ↔ All (IsAmong required) roles
unfolding all_required
all_required_iff required [] = ground arith
all_required_iff required (role ∷ roles) =
    ground (arith, IsAmong-iff required role, all_required_iff required roles)

-- `UserHasAllRoles` accepts exactly the users whose roles are found and are all among the required
-- ones: a user without a role too, and none who has a role besides those required.
pub user_has_all_roles_iff :
    (svc : Service) (required : List Role) (r : Request) (uid : ℕ)
    → (user_has_all_roles svc required r uid ≡ ok true)
      ↔ ((roles : List Role) × (svc.get_user_roles uid ≡ ok roles) × All (IsAmong required) roles)
unfolding user_has_all_roles
user_has_all_roles_iff svc required r uid = (
  λ h. elim (Result-cases (svc.get_user_roles uid)) [
    | inl (roles, e) ↦ (roles, e, (all_required_iff required roles).0 (ground arith))
    | inr (x, e) ↦ absurd (ground arith)
  ],
  λ h. rw (h.1, (all_required_iff required h.0).1 h.2) refl,
)
