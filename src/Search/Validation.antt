-- ===== src/Search/Validation.antt =====
-- `SubmissionsFilter.Validate` of types/types.go.
use package.text.Mathlib.Text.{◌==◌ as str_eq}
use flashpoint_submission_sy.Prelude.{
  zero, suc, String, Bool, true, false, not, ◌&&◌, ◌||◌, Option, none, some, List, [], ◌∷◌, any,
  ltb, Result, ok, err, ◌>>=◌, ◌>>◌, text, errorf,
}
use flashpoint_submission_sy.Search.Filter.{ℤ, pos, negsuc, SubmissionsFilter, unzero_nil_pointers}

-- `if cond { return fmt.Errorf(...) }`
unfoldable pub refuse : Bool → String → Result (Unit {0})
refuse true msg = err (errorf (text msg))
refuse false msg = ok tt

-- `x < 1`, and `x > 1000`
abbrev pub below_one : ℤ → Bool
below_one (pos n) = ltb n 1
below_one (negsuc n) = true

abbrev pub above_thousand : ℤ → Bool
above_thousand (pos n) = ltb 1000 n
above_thousand (negsuc n) = false

-- Zero stands for an absent value, and anything else below one is refused.
unfoldable pub drop_zero : Option ℤ → String → Result (Option ℤ)
drop_zero none msg = ok none
drop_zero (some (pos zero)) msg = ok none
drop_zero (some (pos (suc n))) msg = ok (some (pos (suc n)))
drop_zero (some (negsuc n)) msg = err (errorf (text msg))

-- A text that may be absent, and else is one of some words.
pub data Check : Type 0 where
  one_of : Option String → List String → String → Check

abbrev pub is_some {ℓ} : {A : Type ℓ} → Option A → Bool
is_some none = false
is_some (some a) = true

abbrev pub is_word : Option String → List String → Bool
is_word none words = true
is_word (some s) words = any (λ w. str_eq s w) words

abbrev pub passes : Check → Bool
passes (one_of value words msg) = is_word value words

abbrev pub refusal : Check → String
refusal (one_of value words msg) = msg

unfoldable pub check_each : List Check → Result (Unit {0})
unfolding refuse
check_each [] = ok tt
check_each (c ∷ cs) = let rest = check_each cs in refuse (not (passes c)) (refusal c) >> rest

-- The statuses, and those of the caller.
unfoldable pub status_checks : SubmissionsFilter → List Check
status_checks sf =
    one_of sf.assigned_status_testing ("unassigned" ∷ "assigned" ∷ [])
      "invalid assigned-status-testing"
    ∷ one_of sf.assigned_status_verification ("unassigned" ∷ "assigned" ∷ [])
        "invalid assigned-status-verification"
    ∷ one_of sf.assigned_status_testing ("unassigned" ∷ "assigned" ∷ []) "invalid assigned-status"
    ∷ one_of sf.requested_changed_status ("none" ∷ "ongoing" ∷ [])
        "invalid requested-changes-status"
    ∷ one_of sf.approvals_status ("none" ∷ "approved" ∷ []) "invalid approvals-status"
    ∷ one_of sf.verification_status ("none" ∷ "verified" ∷ []) "invalid verificaton-status"
    ∷ one_of sf.assigned_status_testing_me ("unassigned" ∷ "assigned" ∷ [])
        "invalid assigned-status-testing-me"
    ∷ one_of sf.assigned_status_verification_me ("unassigned" ∷ "assigned" ∷ [])
        "invalid assigned-status-verification-me"
    ∷ one_of sf.requested_changed_status_me ("none" ∷ "ongoing" ∷ [])
        "invalid requested-changes-status-me"
    ∷ one_of sf.approvals_status_me ("no" ∷ "yes" ∷ []) "invalid approvals-status-me"
    ∷ one_of sf.verification_status_me ("no" ∷ "yes" ∷ []) "invalid verificaton-status-me"
    ∷ []

-- The statuses of a given user.
unfoldable pub user_checks : SubmissionsFilter → List Check
user_checks sf =
    one_of sf.assigned_status_testing_user ("unassigned" ∷ "assigned" ∷ [])
      "invalid assigned-status-testing-user"
    ∷ one_of sf.assigned_status_verification_user ("unassigned" ∷ "assigned" ∷ [])
        "invalid assigned-status-verification-user"
    ∷ one_of sf.requested_changed_status_user ("none" ∷ "ongoing" ∷ [])
        "invalid requested-changes-status-user"
    ∷ one_of sf.approvals_status_user ("no" ∷ "yes" ∷ []) "invalid approvals-status-user"
    ∷ one_of sf.verification_status_user ("no" ∷ "yes" ∷ []) "invalid verificaton-status-user"
    ∷ []

-- The rest.
unfoldable pub other_checks : SubmissionsFilter → List Check
other_checks sf =
    one_of sf.is_extreme ("no" ∷ "yes" ∷ "No" ∷ "Yes" ∷ []) "invalid is-extreme"
    ∷ one_of sf.is_content_change ("no" ∷ "yes" ∷ []) "invalid is-content-change"
    ∷ one_of sf.is_frozen ("no" ∷ "yes" ∷ []) "invalid is-frozen"
    ∷ one_of sf.has_additional_applications ("no" ∷ "yes" ∷ [])
        "invalid has-additional-applications"
    ∷ one_of sf.last_uploader_not_me ("yes" ∷ []) "last-uploader-not-me"
    ∷ one_of sf.submitter_not_me ("yes" ∷ []) "submitter-not-me"
    ∷ one_of sf.order_by ("uploaded" ∷ "updated" ∷ "size" ∷ "title" ∷ "platform" ∷ "library" ∷ [])
        "invalid order-by"
    ∷ one_of sf.asc_desc ("asc" ∷ "desc" ∷ []) "invalid asc-desc"
    ∷ one_of sf.subscribed_me ("no" ∷ "yes" ∷ []) "invalid subscribed-me"
    ∷ []

-- Is one of the statuses of a given user asked for?
unfoldable pub asks_for_user : SubmissionsFilter → Bool
asks_for_user sf =
    is_some sf.assigned_status_testing_user
    || is_some sf.assigned_status_verification_user
    || is_some sf.requested_changed_status_user
    || is_some sf.approvals_status_user
    || is_some sf.verification_status_user

abbrev pub exceeds_thousand : Option ℤ → Bool
exceeds_thousand none = false
exceeds_thousand (some z) = above_thousand z

-- The checks, on a filter whose zeros are nil.
unfoldable pub validate_unzeroed : SubmissionsFilter → Result SubmissionsFilter
unfolding refuse drop_zero check_each status_checks user_checks other_checks asks_for_user
validate_unzeroed sf = do
  refuse (any below_one sf.submission_ids) "submission id must be >= 1"
  submitter ← drop_zero sf.submitter_id "submitter id must be >= 1"
  results ← drop_zero sf.results_per_page "results per page must be >= 1"
  refuse (exceeds_thousand results) "results per page must be <= 1000"
  page ← drop_zero sf.page "page must be >= 1"
  check_each (status_checks sf)
  user ← drop_zero sf.assigned_status_user_id "assigned-status-user-id id must be >= 1"
  check_each (user_checks sf)
  refuse (not (is_some user) && asks_for_user sf)
      "assigned-status-user-id must be set when any of the relevant *user filters are set"
  check_each (other_checks sf)
  ok (record sf {
    submitter_id = submitter;
    results_per_page = results;
    page = page;
    assigned_status_user_id = user;
  })

-- The filter as validation leaves it, or the first refusal.
unfoldable pub validate : SubmissionsFilter → Result SubmissionsFilter
unfolding validate_unzeroed unzero_nil_pointers
validate sf = validate_unzeroed (unzero_nil_pointers sf)
