-- ===== src/Constants/Actions.antt =====
-- constants/constants.go: the comment actions. The program passes them as strings and only
-- compares them, so each constant is a constructor, and `other n` is the n-th of all other strings.
use flashpoint_submission_sy.Prelude.{ℕ, ◌+◌, Bool, List, [], ◌∷◌, ◌++◌, any, ◌==◌, if◌then◌else◌}
use flashpoint_submission_sy.Constants.Roles.{Role, is_staff}

pub data Action : Type 0 where
  comment approve request_changes mark_added upload edit_meta verify : Action
  assign_testing unassign_testing assign_verification unassign_verification : Action
  system reject audition_upload audition_subscribe : Action
  other : ℕ → Action

-- A number for each string.
abbrev pub tag : Action → ℕ
tag comment = 0
tag approve = 1
tag request_changes = 2
tag mark_added = 3
tag upload = 4
tag edit_meta = 5
tag verify = 6
tag assign_testing = 7
tag unassign_testing = 8
tag assign_verification = 9
tag unassign_verification = 10
tag system = 11
tag reject = 12
tag audition_upload = 13
tag audition_subscribe = 14
tag (other n) = 15 + n

-- `a == b` on the strings.
abbrev pub same_action : Action → Action → Bool
same_action a b = tag a == tag b

-- `for _, a := range actions { if formAction == a { ... break } }`
abbrev pub action_in : Action → List Action → Bool
action_in a = any (same_action a)

abbrev pub get_allowed_actions : List Action
get_allowed_actions =
    comment ∷ approve ∷ request_changes ∷ mark_added ∷ upload ∷ verify ∷ assign_testing
    ∷ unassign_testing ∷ assign_verification ∷ unassign_verification ∷ reject ∷ []

abbrev pub get_actions_with_mandatory_message : List Action
get_actions_with_mandatory_message = comment ∷ request_changes ∷ reject ∷ []

abbrev pub get_actions_with_notification : List Action
get_actions_with_notification =
    comment ∷ approve ∷ request_changes ∷ mark_added ∷ upload ∷ reject ∷ edit_meta ∷ []

abbrev pub get_profile_notification_actions : List Action
get_profile_notification_actions =
    comment ∷ approve ∷ request_changes ∷ mark_added ∷ upload ∷ edit_meta ∷ reject ∷ []

abbrev pub get_staff_only_profile_notification_actions : List Action
get_staff_only_profile_notification_actions = audition_upload ∷ audition_subscribe ∷ []

unfoldable pub get_allowed_profile_notification_actions : List Role → List Action
get_allowed_profile_notification_actions roles =
    if is_staff roles
    then get_profile_notification_actions ++ get_staff_only_profile_notification_actions
    else get_profile_notification_actions
