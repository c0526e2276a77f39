-- ===== src/Comments/Receive.antt =====
-- service/siteservice_comments.go: the guards of `ReceiveComments`, its transaction and its commits.
use package.text.Mathlib.Text.{◌==◌ as str_eq}
use flashpoint_submission_sy.Prelude.{
  ℕ, Bool, true, false, ◌&&◌, not, Option, none, some, String, List, [], ◌∷◌, ◌++◌, Result, ok, err,
  Error, perr, dberr, text, about, bad_request, not_found, if◌then◌else◌, ◌==◌, ltb, length, any,
  refuse_if, ◌or_else◌,
}
use flashpoint_submission_sy.Constants.Actions.{
  Action, request_changes, reject, same_action, action_in, tag, get_allowed_actions,
  get_actions_with_mandatory_message,
}
use flashpoint_submission_sy.Review.Submission.{ExtendedSubmission}
use flashpoint_submission_sy.Database.Session.{
  Database, Session, CommentEvent, Tx, ◌>>=◌, ◌>>◌, raise, dal_call, is_failing, next_faults,
}
use flashpoint_submission_sy.Database.Locks.{lock_submissions}
use flashpoint_submission_sy.Database.Search.{search_submissions}
use flashpoint_submission_sy.Comments.{Environment, skip, review_each}

-- The form of the request.
pub record CommentForm : Type 0 where
  pub action : Action
  pub message : String
  pub ignore_dupe_actions : String

-- The committed state of the two databases.
pub record Store : Type 0 where
  pub db : Database
  pub events : List CommentEvent

-- What a request leaves, and the error that it returns, if any.
pub record Outcome : Type 0 where
  pub store : Store
  pub failure : Option Error

-- An empty message is no message.
unfoldable pub message_of : String → Option String
message_of m = if str_eq m "" then none else some m

unfoldable pub is_missing : Option String → Bool
is_missing none = true
is_missing (some m) = str_eq m ""

-- The guards on the form, for a batch of this many submissions.
unfoldable pub check_form : ℕ → Action → Option String → Option Error
check_form n a message =
    refuse_if (not (action_in a get_allowed_actions))
      (perr (text "invalid comment action") bad_request)
    or_else refuse_if (action_in a get_actions_with_mandatory_message && is_missing message)
        (perr (about "cannot post comment action '%s' without a message" (tag a)) bad_request)
    or_else refuse_if (same_action a request_changes && ltb 1 n)
        (perr (text "cannot request changes on multiple submissions at once") bad_request)
    or_else refuse_if (same_action a reject && ltb 1 n)
        (perr (text "cannot reject multiple submissions at once") bad_request)

-- Every id of the batch has to be found.
unfoldable pub check_found : List ℕ → List ExtendedSubmission → Option Error
check_found [] found = none
check_found (sid ∷ sids) found =
    refuse_if (not (any (λ s. sid == s.submission_id) found))
      (perr (about "submission %d not found" sid) not_found)
    or_else check_found sids found

unfoldable pub guard : Option Error → Tx (Unit {0})
guard none = skip
guard (some e) = raise e

-- The work of the request inside the session of MySQL.
unfoldable pub process_batch : Environment → ℕ → List ℕ → CommentForm → Tx (Unit {0})
process_batch env uid sids form =
    let message = message_of form.message in
    let ignore_dupes = str_eq form.ignore_dupe_actions "true" in
    dal_call
    >> guard (check_form (length sids) form.action message)
    >> lock_submissions sids
    >> search_submissions sids
    >>= λ found.
        guard (check_found sids found) >> review_each env uid form.action message ignore_dupes found

-- The changes of a session in one database. A commit that returns an error may have been done.
unfoldable pub commit_mysql : Environment → Store → Session → Outcome
commit_mysql env s w =
    let done = record s { db = w.db } in
    if is_failing w.faults
    then record { store = if env.mysql_had_committed then done else s; failure = some dberr }
    else record { store = done; failure = none }

-- PostgreSQL commits first, if its session was opened.
unfoldable pub commit : Environment → Store → Session → Outcome
unfolding commit_mysql
commit env s w =
    let done = record s { events = w.events ++ s.events } in
    if not w.pg_open
    then commit_mysql env s w
    else if is_failing w.faults
    then record { store = if env.postgres_had_committed then done else s; failure = some dberr }
    else commit_mysql env done (record w { faults = next_faults w.faults })

-- The session as it is opened; the faults say which of its calls will fail.
abbrev pub begin : Store → List Bool → Session
begin s faults = record { db = s.db; events = []; pg_open = false; readings = 0; faults = faults }

-- A session that fails is rolled back.
unfoldable pub finish : Environment → Store → Result (Unit {0} × Session) → Outcome
unfolding commit
finish env s (ok (u, w)) = commit env s w
finish env s (err e) = record { store = s; failure = some e }

unfoldable pub receive_comments :
    Environment → List Bool → ℕ → List ℕ → CommentForm → Store → Outcome
unfolding process_batch finish
receive_comments env faults uid [] form s = record {
  store = s;
  failure = some (perr (text "at least one submission ID is required") bad_request);
}
receive_comments env faults uid sids form s =
    finish env s (process_batch env uid sids form (begin s faults))
