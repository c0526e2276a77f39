-- ===== src/Transport/CommentAction.antt =====
-- transport/middlewares.go: `UserCanCommentAction` and `IsAction`.
use flashpoint_submission_sy.Prelude.{
  ◌≡◌, ◌⊎◌, Bool, true, ◌&&◌, ◌||◌, Option, none, some, List, [], ◌∷◌, Result, ok, err, ◌>>=◌,
  arith, any, Exists, errorf, text, ◌↔◌,
}
use flashpoint_submission_sy.Constants.Actions.{
  Action, comment, approve, request_changes, mark_added, verify, assign_testing, unassign_testing,
  assign_verification, unassign_verification, reject, same_action, action_in,
}
use flashpoint_submission_sy.Constants.Roles.{
  Role, administrator, moderator, curator, tester, same_role, has_any_role, adder_roles,
  decider_roles, staff_roles, is_adder, is_decider, is_staff,
}
use flashpoint_submission_sy.Transport.Request.{Service, Authorizer}

-- `r.ParseForm`
abbrev pub parse_form : Option Action → Result Action
parse_form none = err (errorf (text "malformed form"))
parse_form (some a) = ok a

-- `canDo`: the action is one of these, and the user has one of these roles.
pub can_do : Action → List Role → List Action → List Role → Bool
can_do form_action user_roles actions roles =
    action_in form_action actions && has_any_role user_roles roles

abbrev pub decider_actions : List Action
decider_actions =
    approve ∷ request_changes ∷ verify ∷ assign_testing ∷ unassign_testing ∷ assign_verification
    ∷ unassign_verification ∷ reject ∷ []

-- The last lines of `UserCanCommentAction`.
unfoldable pub may_act : Action → List Role → Bool
unfolding can_do
may_act a roles =
    same_action a comment
    || can_do a roles (mark_added ∷ []) adder_roles
    || can_do a roles decider_actions decider_roles

unfoldable pub user_can_comment_action : Service → Authorizer
user_can_comment_action svc r uid = parse_form r.form_action >>= λ form_action.
    svc.get_user_roles uid >>= λ user_roles. ok (may_act form_action user_roles)

unfoldable pub is_action : Action → Authorizer
is_action action r uid = parse_form r.form_action >>= λ a. ok (same_action action a)

-- Every role that decides or adds is a staff role.
decider_role-staff :
    (role : Role)
    → any (same_role role) decider_roles ≡ true
    → any (same_role role) staff_roles ≡ true
decider_role-staff role h = ground arith

adder_role-staff :
    (role : Role)
    → any (same_role role) adder_roles ≡ true
    → any (same_role role) staff_roles ≡ true
adder_role-staff role h = ground arith

pub is_decider-is_staff : (roles : List Role) → is_decider roles ≡ true → is_staff roles ≡ true
unfolding is_decider is_staff has_any_role
is_decider-is_staff [] h = h
is_decider-is_staff (role ∷ roles) h =
    ground (arith, decider_role-staff role, is_decider-is_staff roles)

pub is_adder-is_staff : (roles : List Role) → is_adder roles ≡ true → is_staff roles ≡ true
unfolding is_adder is_staff has_any_role
is_adder-is_staff [] h = h
is_adder-is_staff (role ∷ roles) h = ground (arith, adder_role-staff role, is_adder-is_staff roles)

may_act_split :
    (a : Action) (roles : List Role)
    → (may_act a roles ≡ true) ↔ (
        (a ≡ comment)
        ⊎ ((a ≡ mark_added) × (is_adder roles ≡ true)
            ⊎ (action_in a decider_actions ≡ true) × (is_decider roles ≡ true)))
unfolding may_act is_adder is_decider
may_act_split comment roles = ground arith
may_act_split _ roles = ground arith

pub may_act-staff :
    (a : Action) (roles : List Role)
    → may_act a roles ≡ true
    → (a ≡ comment) ⊎ (is_staff roles ≡ true)
may_act-staff a roles h =
    ground (arith, (may_act_split a roles).0 h, is_decider-is_staff roles, is_adder-is_staff roles)

abbrev pub Adds : Role → Type 0
Adds administrator = Unit
Adds moderator = Unit
Adds _ = ⊥

abbrev pub Decides : Role → Type 0
Decides administrator = Unit
Decides moderator = Unit
Decides curator = Unit
Decides tester = Unit
Decides _ = ⊥

-- Who may send which action.
abbrev pub IsPermitted : Action → List Role → Type 0
IsPermitted comment roles = Unit
IsPermitted mark_added roles = Exists Adds roles
IsPermitted approve roles = Exists Decides roles
IsPermitted request_changes roles = Exists Decides roles
IsPermitted verify roles = Exists Decides roles
IsPermitted reject roles = Exists Decides roles
IsPermitted assign_testing roles = Exists Decides roles
IsPermitted unassign_testing roles = Exists Decides roles
IsPermitted assign_verification roles = Exists Decides roles
IsPermitted unassign_verification roles = Exists Decides roles
IsPermitted _ roles = ⊥

adder_role_iff : (role : Role) → (any (same_role role) adder_roles ≡ true) ↔ Adds role
adder_role_iff administrator = ground arith
adder_role_iff moderator = ground arith
adder_role_iff _ = ground arith

decider_role_iff : (role : Role) → (any (same_role role) decider_roles ≡ true) ↔ Decides role
decider_role_iff administrator = ground arith
decider_role_iff moderator = ground arith
decider_role_iff curator = ground arith
decider_role_iff tester = ground arith
decider_role_iff _ = ground arith

has_any_role_iff :
    (P : Role → Type 0) (needs : List Role)
    → ((role : Role) → (any (same_role role) needs ≡ true) ↔ P role)
    → (roles : List Role) → (has_any_role roles needs ≡ true) ↔ Exists P roles
unfolding has_any_role
has_any_role_iff P needs h [] = ground arith
has_any_role_iff P needs h (role ∷ roles) = ground (arith, h role, has_any_role_iff P needs h roles)

-- The roles allow an action exactly when it is a comment, or it marks as added and one of them is an
-- administrator's or a moderator's, or it is an approval, a request for changes, a verification, a
-- rejection or one of the four assignments and one of them is an administrator's, a moderator's, a
-- curator's or a tester's.
pub may_act_iff : (a : Action) (roles : List Role) → (may_act a roles ≡ true) ↔ IsPermitted a roles
unfolding may_act
may_act_iff comment roles = ground arith
may_act_iff mark_added roles =
    ground (arith, has_any_role_iff Adds adder_roles adder_role_iff roles)
may_act_iff _ roles = ground (arith, has_any_role_iff Decides decider_roles decider_role_iff roles)
