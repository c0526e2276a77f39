-- ===== src/Comments/Soundness.antt =====
-- The whole request, and the invariant of the rows.
use flashpoint_submission_sy.Prelude.{
  ℕ, ◌≡◌, refl, ap, sym, ◌∙◌, Bool, true, false, Option, none, some, List, [], ◌∷◌, ok, err, Error,
  arith, All, All-map, length, if◌then◌else◌, if_both, not, Result,
}
use flashpoint_submission_sy.Review.Submission.{ExtendedSubmission}
use flashpoint_submission_sy.Review.Row.Invariant.{Sound}
use flashpoint_submission_sy.Database.Session.{
  Database, Session, Tx, ◌>>◌, pure, raise, dal_call, get_db, is_failing, next_faults,
}
use flashpoint_submission_sy.Database.Locks.{
  lock_submissions, lock_each, lock_one, lock_order, is_active,
}
use flashpoint_submission_sy.Database.Search.{
  scan_rows, selected_rows, search_submissions, selected,
}
use flashpoint_submission_sy.Database.Search.Found.{IsUnique, selected_rows-IsUnique}
use flashpoint_submission_sy.Comments.{Environment}
use flashpoint_submission_sy.Comments.Effect.{
  View, view, Quiet, Quiet-bind, skip-Quiet, dal_call-Quiet, bind_inv,
}
use flashpoint_submission_sy.Comments.Rounds.{dal_call_db}
use flashpoint_submission_sy.Comments.Batch.{IsMonotone, review_each-Sound}
use flashpoint_submission_sy.Comments.Receive.{
  CommentForm, Store, Outcome, receive_comments, process_batch, finish, commit, commit_mysql, begin,
  guard, check_form, check_found, message_of,
}
use flashpoint_submission_sy.Comments.Found.{IsSettled, found-IsFit, scan_rows-IsDistinct}

pub guard-Quiet : (e : Option Error) → Quiet (guard e)
unfolding guard raise
guard-Quiet none = skip-Quiet
guard-Quiet (some x) = λ t w w' a e h. absurd (ground arith)

pure-Quiet : Quiet (pure tt)
unfolding pure
pure-Quiet t w w' a e h = ground arith

raise-Quiet : (x : Error) → Quiet (raise {A = Unit {0}} x)
unfolding raise
raise-Quiet x t w w' a e h = absurd (ground arith)

get_db-Quiet : Quiet get_db
unfolding get_db
get_db-Quiet t w w' a e h = ground arith

if-Quiet : {A : Type 0} (b : Bool) (m k : Tx A) → Quiet m → Quiet k → Quiet (if b then m else k)
if-Quiet true m k p q = p
if-Quiet false m k p q = q

lock_one-Quiet : (sid : ℕ) → Quiet (lock_one sid)
unfolding lock_one
lock_one-Quiet sid =
    Quiet-bind (dal_call >> get_db) _ (Quiet-bind dal_call _ dal_call-Quiet (λ u. get_db-Quiet))
      (λ db. if-Quiet (is_active sid db.submissions) _ _ pure-Quiet (raise-Quiet _))

lock_each-Quiet : (sids : List ℕ) → Quiet (lock_each sids)
unfolding lock_each
lock_each-Quiet [] = pure-Quiet
lock_each-Quiet (sid ∷ sids) =
    Quiet-bind (lock_one sid) _ (lock_one-Quiet sid) (λ u. lock_each-Quiet sids)

lock_submissions-Quiet : (sids : List ℕ) → Quiet (lock_submissions sids)
unfolding lock_submissions
lock_submissions-Quiet sids = lock_each-Quiet (lock_order sids)

pub read_db :
    (w v : Session) (db : Database)
    → (dal_call >> get_db) w ≡ ok (db, v)
    → (db ≡ w.db) × (v.db ≡ w.db)
unfolding get_db
read_db w v db e =
    let inv = bind_inv dal_call _ w v db e in
    let same = (dal_call_db w inv.1.0 inv.0 inv.1.1).0 in ground (arith, same, inv.1.2)

scanned :
    (db : Database) (sids : List ℕ) (o : Option (List ExtendedSubmission)) (v w' : Session)
    (found : List ExtendedSubmission)
    → selected o v ≡ ok (found, w')
    → (o ≡ some found) × (w' ≡ v)
unfolding selected
scanned db sids none v w' found e = absurd (ground arith)
scanned db sids (some ss) v w' found e = ground arith

search_submissions_inv :
    (sids : List ℕ) (w w' : Session) (found : List ExtendedSubmission)
    → search_submissions sids w ≡ ok (found, w')
    → (scan_rows (selected_rows sids w.db.submissions) ≡ some found)
      × (w'.db.submissions ≡ w.db.submissions)
unfolding search_submissions
search_submissions_inv sids w w' found e =
    let inv = bind_inv (dal_call >> get_db) _ w w' found e in
    let v : Session = inv.1.0 in
    let read = read_db w v inv.0 inv.1.1 in
    let last =
      scanned inv.0 sids (scan_rows (selected_rows sids (inv.0).submissions)) v w' found inv.1.2 in
    (
      ap (λ (d : Database). scan_rows (selected_rows sids d.submissions)) (sym read.0) ∙ last.0,
      ap (λ (x : Session). x.db.submissions) last.1 ∙ ap (λ (d : Database). d.submissions) read.1,
    )

-- Whatever the batch does, it is done from a session in which the rows are the committed ones.
process_batch-Sound :
    (env : Environment) (uid : ℕ) (sids : List ℕ) (form : CommentForm) (w w' : Session)
    → IsMonotone env.clock
    → IsUnique w.db.submissions
    → All (IsSettled env) w.db.submissions
    → process_batch env uid sids form w ≡ ok (tt, w')
    → All Sound w'.db.submissions
unfolding process_batch
process_batch-Sound env uid sids form w w' clock unique settled e =
    let i1 = bind_inv _ _ w w' tt e in
    let found : List ExtendedSubmission = i1.0 in
    let v1 : Session = i1.1.0 in
    let i2 = bind_inv _ (λ u. search_submissions sids) w v1 found i1.1.1 in
    let v2 : Session = i2.1.0 in
    let before : v2.db.submissions ≡ w.db.submissions =
      ap (λ (t : View). t.rows)
        (Quiet-bind _ _
          (Quiet-bind _ _ dal_call-Quiet
            (λ u. guard-Quiet (check_form (length sids) form.action (message_of form.message))))
          (λ u. lock_submissions-Quiet sids) (view w) w v2 i2.0 i2.1.1 refl) in
    let search = search_submissions_inv sids v2 v1 found i2.1.2 in
    let i3 = bind_inv (guard (check_found sids found)) _ v1 w' tt i1.1.2 in
    let v3 : Session = i3.1.0 in
    let after : v3.db.submissions ≡ w.db.submissions =
      ap (λ (t : View). t.rows)
        (guard-Quiet (check_found sids found) (view v1) v1 v3 i3.0 i3.1.1 refl)
      ∙ search.1
      ∙ before in
    let fit =
      found-IsFit env sids w.db.submissions found unique settled
        (ap (λ rows. scan_rows (selected_rows sids rows)) (sym before) ∙ search.0) in
    review_each-Sound env uid form.action _ _ found v3 w' clock
      (scan_rows-IsDistinct (selected_rows sids w.db.submissions) found
        (selected_rows-IsUnique sids w.db.submissions unique)
        (ap (λ rows. scan_rows (selected_rows sids rows)) (sym before) ∙ search.0))
      (rw after fit) i3.1.2

commit-Sound :
    (env : Environment) (s : Store) (w : Session)
    → All Sound s.db.submissions
    → All Sound w.db.submissions
    → All Sound (commit env s w).store.db.submissions
unfolding commit commit_mysql
commit-Sound env s w old new =
    let Q = λ (o : Outcome). All Sound o.store.db.submissions in
    let R = λ (t : Store). All Sound t.db.submissions in
    let either = if_both R env.mysql_had_committed _ _ new old in
    let events = if_both R env.postgres_had_committed _ _ old old in
    if_both Q (not w.pg_open) _ _ (if_both Q (is_failing w.faults) _ _ either new) (
      if_both Q (is_failing w.faults) _ _ events (
        if_both Q (is_failing (next_faults w.faults)) _ _
          (if_both R env.mysql_had_committed _ _ new old) new))

finish-Sound :
    (env : Environment) (s : Store) (o : Result (Unit {0} × Session))
    → All Sound s.db.submissions
    → ((w : Session) → o ≡ ok (tt, w) → All Sound w.db.submissions)
    → All Sound (finish env s o).store.db.submissions
unfolding finish
finish-Sound env s (ok (u, w)) old new = commit-Sound env s w old (new w refl)
finish-Sound env s (err x) old new = old

-- If no two rows have the same id, the clock does not go back, and each row has the invariant and
-- holds an active file and nothing that is not older than the clock, then each row has the invariant
-- after the request, whatever the request asks for and whichever calls fail.
pub receive_comments-Sound :
    (env : Environment) (faults : List Bool) (uid : ℕ) (sids : List ℕ) (form : CommentForm)
    (s : Store)
    → IsMonotone env.clock
    → IsUnique s.db.submissions
    → All (IsSettled env) s.db.submissions
    → All Sound (receive_comments env faults uid sids form s).store.db.submissions
unfolding receive_comments
receive_comments-Sound env faults uid [] form s clock unique settled =
    All-map _ _ s.db.submissions (λ r p. p.0) settled
receive_comments-Sound env faults uid (sid ∷ sids) form s clock unique settled =
    let old = All-map _ _ s.db.submissions (λ r p. p.0) settled in
    finish-Sound env s (process_batch env uid (sid ∷ sids) form (begin s faults)) old (λ w q.
      process_batch-Sound env uid (sid ∷ sids) form (begin s faults) w clock unique settled q)
