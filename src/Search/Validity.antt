-- ===== src/Search/Validity.antt =====
-- What `SubmissionsFilter.Validate` (types/types.go) asks of a filter, field by field.
use package.text.Mathlib.TextEquality.{eq_iff as str_eq_iff}
use flashpoint_submission_sy.Prelude.{
  ◌≤◌, String, ◌≡◌, ◌≢◌, ◌⊎◌, Option, none, some, List, [], ◌∷◌, All,
}
use flashpoint_submission_sy.Search.Filter.{ℤ, pos, negsuc, SubmissionsFilter}
use flashpoint_submission_sy.Search.Validation.{Check, one_of}
use flashpoint_submission_sy.Search.Admission.{AtLeastOne}

abbrev pub IsPositive : ℤ → Type 0
IsPositive (pos n) = 1 ≤ n
IsPositive (negsuc n) = ⊥

-- Absent, or at most a thousand.
abbrev pub AtMostThousand : Option ℤ → Type 0
AtMostThousand none = Unit
AtMostThousand (some (pos n)) = n ≤ 1000
AtMostThousand (some (negsuc n)) = Unit

abbrev pub Listed : List String → String → Type 0
Listed [] s = ⊥
Listed (w ∷ ws) s = (s ≡ w) ⊎ Listed ws s

-- Absent, or one of the words.
abbrev pub OneOf : List String → Option String → Type 0
OneOf words none = Unit
OneOf words (some s) = Listed words s

-- No status of a user is asked for.
abbrev pub AsksForNoUser : SubmissionsFilter → Type 0
AsksForNoUser f =
    (f.assigned_status_testing_user ≡ none)
    × (f.assigned_status_verification_user ≡ none)
    × (f.requested_changed_status_user ≡ none)
    × (f.approvals_status_user ≡ none)
    × (f.verification_status_user ≡ none)

-- The filters that may be searched by.
pub record IsValid (f : SubmissionsFilter) : Type 0 where
  pub submission_ids : All IsPositive f.submission_ids
  pub submitter_id : AtLeastOne f.submitter_id
  pub results_per_page : AtLeastOne f.results_per_page × AtMostThousand f.results_per_page
  pub page : AtLeastOne f.page
  pub assigned_status_user_id : AtLeastOne f.assigned_status_user_id
  pub user_given : (f.assigned_status_user_id ≢ none) ⊎ AsksForNoUser f
  pub assigned_status_testing : OneOf ("unassigned" ∷ "assigned" ∷ []) f.assigned_status_testing
  pub assigned_status_verification :
      OneOf ("unassigned" ∷ "assigned" ∷ []) f.assigned_status_verification
  pub requested_changed_status : OneOf ("none" ∷ "ongoing" ∷ []) f.requested_changed_status
  pub approvals_status : OneOf ("none" ∷ "approved" ∷ []) f.approvals_status
  pub verification_status : OneOf ("none" ∷ "verified" ∷ []) f.verification_status
  pub assigned_status_testing_me :
      OneOf ("unassigned" ∷ "assigned" ∷ []) f.assigned_status_testing_me
  pub assigned_status_verification_me :
      OneOf ("unassigned" ∷ "assigned" ∷ []) f.assigned_status_verification_me
  pub requested_changed_status_me : OneOf ("none" ∷ "ongoing" ∷ []) f.requested_changed_status_me
  pub approvals_status_me : OneOf ("no" ∷ "yes" ∷ []) f.approvals_status_me
  pub verification_status_me : OneOf ("no" ∷ "yes" ∷ []) f.verification_status_me
  pub assigned_status_testing_user :
      OneOf ("unassigned" ∷ "assigned" ∷ []) f.assigned_status_testing_user
  pub assigned_status_verification_user :
      OneOf ("unassigned" ∷ "assigned" ∷ []) f.assigned_status_verification_user
  pub requested_changed_status_user :
      OneOf ("none" ∷ "ongoing" ∷ []) f.requested_changed_status_user
  pub approvals_status_user : OneOf ("no" ∷ "yes" ∷ []) f.approvals_status_user
  pub verification_status_user : OneOf ("no" ∷ "yes" ∷ []) f.verification_status_user
  pub is_extreme : OneOf ("no" ∷ "yes" ∷ "No" ∷ "Yes" ∷ []) f.is_extreme
  pub is_content_change : OneOf ("no" ∷ "yes" ∷ []) f.is_content_change
  pub is_frozen : OneOf ("no" ∷ "yes" ∷ []) f.is_frozen
  pub has_additional_applications : OneOf ("no" ∷ "yes" ∷ []) f.has_additional_applications
  pub last_uploader_not_me : OneOf ("yes" ∷ []) f.last_uploader_not_me
  pub submitter_not_me : OneOf ("yes" ∷ []) f.submitter_not_me
  pub order_by :
      OneOf ("uploaded" ∷ "updated" ∷ "size" ∷ "title" ∷ "platform" ∷ "library" ∷ []) f.order_by
  pub asc_desc : OneOf ("asc" ∷ "desc" ∷ []) f.asc_desc
  pub subscribed_me : OneOf ("no" ∷ "yes" ∷ []) f.subscribed_me

abbrev Satisfied : Check → Type 0
Satisfied (one_of value words msg) = OneOf words value
