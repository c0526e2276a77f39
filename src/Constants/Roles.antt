-- ===== src/Constants/Roles.antt =====
-- constants/roles.go: the Discord roles and the permission predicates over them. Role names are
-- only compared, so `other n` is the n-th of all strings that are no constant.
use flashpoint_submission_sy.Prelude.{ℕ, ◌+◌, Bool, false, ◌||◌, not, List, [], ◌∷◌, any, ◌==◌}

pub data Role : Type 0 where
  administrator moderator curator hacker tester archivist mechanic hunter : Role
  trial_curator trial_editor the_blue the_d : Role
  other : ℕ → Role

-- A number for each string.
abbrev pub role_tag : Role → ℕ
role_tag administrator = 0
role_tag moderator = 1
role_tag curator = 2
role_tag hacker = 3
role_tag tester = 4
role_tag archivist = 5
role_tag mechanic = 6
role_tag hunter = 7
role_tag trial_curator = 8
role_tag trial_editor = 9
role_tag the_blue = 10
role_tag the_d = 11
role_tag (other n) = 12 + n

abbrev pub same_role : Role → Role → Bool
same_role a b = role_tag a == role_tag b

abbrev pub staff_roles : List Role
staff_roles =
    administrator ∷ moderator ∷ curator ∷ hacker ∷ tester ∷ archivist ∷ mechanic ∷ hunter ∷ the_blue
    ∷ the_d ∷ []

abbrev pub trial_curator_roles : List Role
trial_curator_roles = trial_curator ∷ []

abbrev pub trial_editor_roles : List Role
trial_editor_roles = trial_editor ∷ []

abbrev pub deleter_roles : List Role
deleter_roles = administrator ∷ moderator ∷ []

abbrev pub freezer_roles : List Role
freezer_roles = administrator ∷ moderator ∷ []

abbrev pub decider_roles : List Role
decider_roles = curator ∷ tester ∷ moderator ∷ administrator ∷ []

abbrev pub adder_roles : List Role
adder_roles = moderator ∷ administrator ∷ []

abbrev pub god_roles : List Role
god_roles = the_d ∷ []

unfoldable pub has_any_role : List Role → List Role → Bool
has_any_role [] needs = false
has_any_role (role ∷ has) needs = any (same_role role) needs || has_any_role has needs

unfoldable pub is_staff : List Role → Bool
is_staff roles = has_any_role roles staff_roles

unfoldable pub is_trial_curator : List Role → Bool
is_trial_curator roles = has_any_role roles trial_curator_roles

unfoldable pub is_in_audit : List Role → Bool
is_in_audit roles = not (is_staff roles || is_trial_curator roles)

unfoldable pub is_trial_editor : List Role → Bool
is_trial_editor roles = has_any_role roles trial_editor_roles

unfoldable pub is_deleter : List Role → Bool
is_deleter roles = has_any_role roles deleter_roles

unfoldable pub is_freezer : List Role → Bool
is_freezer roles = has_any_role roles freezer_roles

unfoldable pub is_decider : List Role → Bool
is_decider roles = has_any_role roles decider_roles

unfoldable pub is_adder : List Role → Bool
is_adder roles = has_any_role roles adder_roles

unfoldable pub is_god : List Role → Bool
is_god roles = has_any_role roles god_roles

unfoldable pub is_god_or_colin : List Role → ℕ → Bool
is_god_or_colin roles uid = has_any_role roles god_roles || uid == 689080719460663414
