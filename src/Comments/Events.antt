-- ===== src/Comments/Events.antt =====
-- The comments that a request leaves stored, and their events.
use flashpoint_submission_sy.Prelude.{
  ℕ, ◌<◌, ◌≡◌, inl, inr, refl, ap, sym, Bool, true, false, Option, none, some, List, [], ◌∷◌, ◌++◌,
  Error, arith, All, All-map, Exists, Bool-cases, if◌then◌else◌,
}
use mathlib.Core.Path.{subst}
use flashpoint_submission_sy.Review.Submission.{ExtendedSubmission}
use flashpoint_submission_sy.Review.Row.{Submission}
use flashpoint_submission_sy.Database.Session.{
  Session, CommentEvent, Tx, pure, raise, dal_call, get_db,
}
use flashpoint_submission_sy.Database.Locks.{
  lock_submissions, lock_each, lock_one, lock_order, is_active,
}
use flashpoint_submission_sy.Database.Search.{search_submissions, selected}
use flashpoint_submission_sy.Comments.{Environment}
use flashpoint_submission_sy.Comments.Trace.{
  trace, Leads, Still, Leads-bind, Still-Leads, Still-bind, dal_call-Still, skip-Still,
}
use flashpoint_submission_sy.Comments.Recorded.{IsRecorded, IsTraced}
use flashpoint_submission_sy.Comments.Traced.{review_each-IsTraced}
use flashpoint_submission_sy.Comments.Receive.{
  CommentForm, Store, Outcome, receive_comments, process_batch, begin, guard,
}
use flashpoint_submission_sy.Comments.Atomicity.{
  IsOrdered, IsCommitted, receive_comments-IsCommitted, with_batch,
}

pure-Still : Still (pure tt)
unfolding pure
pure-Still w w' a e = ground arith

raise-Still : {A : Type 0} (x : Error) → Still (raise {A = A} x)
unfolding raise
raise-Still x w w' a e = absurd (ground arith)

get_db-Still : Still get_db
unfolding get_db
get_db-Still w w' a e = ground arith

guard-Still : (e : Option Error) → Still (guard e)
unfolding guard
guard-Still none = skip-Still
guard-Still (some x) = raise-Still x

if-Still : {A : Type 0} (b : Bool) (m k : Tx A) → Still m → Still k → Still (if b then m else k)
if-Still true m k p q = p
if-Still false m k p q = q

lock_one-Still : (sid : ℕ) → Still (lock_one sid)
unfolding lock_one
lock_one-Still sid =
    Still-bind _ _ (Still-bind dal_call _ dal_call-Still (λ u. get_db-Still))
      (λ db. if-Still (is_active sid db.submissions) _ _ pure-Still (raise-Still _))

lock_each-Still : (sids : List ℕ) → Still (lock_each sids)
unfolding lock_each
lock_each-Still [] = pure-Still
lock_each-Still (sid ∷ sids) = Still-bind _ _ (lock_one-Still sid) (λ u. lock_each-Still sids)

selected-Still : (o : Option (List ExtendedSubmission)) → Still (selected o)
unfolding selected
selected-Still none w w' a e = absurd (ground arith)
selected-Still (some ss) w w' a e = ground arith

search_submissions-Still : (sids : List ℕ) → Still (search_submissions sids)
unfolding search_submissions
search_submissions-Still sids =
    Still-bind _ _ (Still-bind dal_call _ dal_call-Still (λ u. get_db-Still))
      (λ db. selected-Still _)

process_batch-IsTraced :
    (env : Environment) (uid : ℕ) (sids : List ℕ) (form : CommentForm) (n : ℕ)
    → Leads (process_batch env uid sids form) (IsTraced n) (IsTraced n)
unfolding process_batch lock_submissions
process_batch-IsTraced env uid sids form n =
    let T = IsTraced n in
    Leads-bind _ _ T T T
      (Still-Leads _ T (
        Still-bind _ _
          (Still-bind _ _ (Still-bind _ _ dal_call-Still (λ u. guard-Still _))
            (λ u. lock_each-Still (lock_order sids)))
          (λ u. search_submissions-Still sids)))
      (λ found.
        Leads-bind _ _ T T T (Still-Leads _ T (guard-Still _))
          (λ u. review_each-IsTraced env n uid form.action _ _ found))

-- Each comment of the rows has an id below `n`.
abbrev pub AreBelow : ℕ → List Submission → Type 0
AreBelow n rows = All (λ r. All (λ c. c.id < n) r.comments) rows

AreBelow-IsRecorded :
    (n : ℕ) (events : List CommentEvent) (rows : List Submission)
    → AreBelow n rows
    → All (IsRecorded n events) rows
AreBelow-IsRecorded n events rows h =
    All-map _ _ rows (λ r k. All-map _ _ r.comments (λ c b. inl b) k) h

Exists-append :
    (P : CommentEvent → Type 0) (xs ys : List CommentEvent) → Exists P xs → Exists P (xs ++ ys)
Exists-append P [] ys h = absurd h
Exists-append P (x ∷ xs) ys (inl p) = inl p
Exists-append P (x ∷ xs) ys (inr h) = inr (Exists-append P xs ys h)

append-IsRecorded :
    (n : ℕ) (events earlier : List CommentEvent) (rows : List Submission)
    → All (IsRecorded n events) rows
    → All (IsRecorded n (events ++ earlier)) rows
append-IsRecorded n events earlier rows h =
    All-map _ _ rows
      (λ r k.
        All-map _ _ r.comments
          (λ c q. elim q [ inl b ↦ inl b | inr x ↦ inr (Exists-append _ events earlier x) ]) k)
      h

batch-IsRecorded :
    (n : ℕ) (s : Store) (w : Session)
    → IsTraced n (trace w)
    → All (IsRecorded n (with_batch s w).events) w.db.submissions
batch-IsRecorded n s w (inl opened, h) = rw opened (append-IsRecorded n w.events s.events _ h)
batch-IsRecorded n s w (inr none_yet, h) =
    let all = append-IsRecorded n w.events s.events w.db.submissions h in
    elim (Bool-cases w.pg_open) [
      | inl opened ↦ rw opened all
      | inr closed ↦
          let same : w.events ++ s.events ≡ s.events = ap (λ es. es ++ s.events) none_yet in
          rw closed (subst (λ es. All (IsRecorded n es) w.db.submissions) same all)
    ]

ordered-IsRecorded :
    (n : ℕ) (s : Store) (w : Session) (o : Outcome)
    → AreBelow n s.db.submissions
    → IsTraced n (trace w)
    → IsOrdered s w o
    → All (IsRecorded n o.store.events) o.store.db.submissions
ordered-IsRecorded n s w o below traced (inl e) =
    subst (λ (t : Store). All (IsRecorded n t.events) t.db.submissions) (sym e)
      (batch-IsRecorded n s w traced)
ordered-IsRecorded n s w o below traced (inr (failed, inl e)) =
    subst (λ (t : Store). All (IsRecorded n t.events) t.db.submissions) (sym e)
      (AreBelow-IsRecorded n _ _ below)
ordered-IsRecorded n s w o below traced (inr (failed, inr e)) =
    subst (λ (t : Store). All (IsRecorded n t.events) t.db.submissions) (sym e)
      (AreBelow-IsRecorded n _ _ below)

-- If the ids of the stored comments are below the next one, then whichever calls and commits of a
-- request fail, and whether or not a server had done a commit that it failed to answer: without an
-- error everything of the batch is stored; with an error the store is as it was, or the batch ran to
-- its end and its events are stored, without or with what it did in MySQL. And every comment that is
-- then stored with that next id or a later one has a stored event of its submission, id, author and
-- action.
pub receive_comments-IsRecorded :
    (env : Environment) (faults : List Bool) (uid : ℕ) (sids : List ℕ) (form : CommentForm)
    (s : Store)
    → AreBelow s.db.next_comment_id s.db.submissions
    → IsCommitted env faults uid sids form s (receive_comments env faults uid sids form s)
      × All
          (IsRecorded s.db.next_comment_id
            (receive_comments env faults uid sids form s).store.events)
          (receive_comments env faults uid sids form s).store.db.submissions
receive_comments-IsRecorded env faults uid sids form s below =
    let n = s.db.next_comment_id in
    let committed = receive_comments-IsCommitted env faults uid sids form s in
    (
      committed,
      elim committed [
        | inl (failed, e) ↦
            subst (λ (t : Store). All (IsRecorded n t.events) t.db.submissions) (sym e)
              (AreBelow-IsRecorded n _ _ below)
        | inr (w, ran, ordered) ↦
            let traced =
              process_batch-IsTraced env uid sids form n (begin s faults) w tt ran
                (inr refl, AreBelow-IsRecorded n [] _ below) in
            ordered-IsRecorded n s w _ below traced ordered
      ],
    )
