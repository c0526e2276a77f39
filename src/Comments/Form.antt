-- ===== src/Comments/Form.antt =====
-- The guards of `ReceiveComments` (service/siteservice_comments.go) on its form.
use package.text.Mathlib.TextEquality.{eq_iff as str_eq_iff}
use flashpoint_submission_sy.Prelude.{
  ℕ, ◌≡◌, ◌≢◌, ◌↔◌, ◌≤◌, false, Option, none, some, String, arith,
}
use flashpoint_submission_sy.Constants.Actions.{
  Action, comment, approve, request_changes, mark_added, upload, verify, assign_testing,
  unassign_testing, assign_verification, unassign_verification, reject,
}
use flashpoint_submission_sy.Comments.Receive.{check_form, is_missing}

abbrev pub HasText : Option String → Type 0
HasText none = ⊥
HasText (some m) = m ≢ ""

is_missing_iff : (message : Option String) → (is_missing message ≡ false) ↔ HasText message
unfolding is_missing
is_missing_iff none = ground arith
is_missing_iff (some m) = ground (arith, str_eq_iff m "")

-- Which forms may be sent, action by action, for a batch of this many submissions.
abbrev pub MaySend : ℕ → Action → Option String → Type 0
MaySend n comment message = HasText message
MaySend n request_changes message = HasText message × (n ≤ 1)
MaySend n reject message = HasText message × (n ≤ 1)
MaySend n approve message = Unit
MaySend n mark_added message = Unit
MaySend n upload message = Unit
MaySend n verify message = Unit
MaySend n assign_testing message = Unit
MaySend n unassign_testing message = Unit
MaySend n assign_verification message = Unit
MaySend n unassign_verification message = Unit
MaySend n _ message = ⊥

-- The guards let a form through exactly when its action is a comment with a message, a request for
-- changes or a rejection with a message for at most one submission, or an approval, a mark as added,
-- an upload, a verification or one of the four assignments, whatever the message and the batch.
pub check_form_iff :
    (n : ℕ) (a : Action) (message : Option String)
    → (check_form n a message ≡ none) ↔ MaySend n a message
unfolding check_form
check_form_iff n comment message = ground (arith, is_missing_iff message)
check_form_iff n request_changes message = ground (arith, is_missing_iff message)
check_form_iff n reject message = ground (arith, is_missing_iff message)
check_form_iff n _ message = ground arith
