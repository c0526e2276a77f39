-- ===== src/Comments/Guards.antt =====
-- What a request has passed when it returns no error.
use package.text.Mathlib.Text.{◌==◌ as str_eq}
use flashpoint_submission_sy.Prelude.{
  ℕ, ◌≡◌, ◌≢◌, refl, ap, sym, ◌∙◌, Bool, true, false, Option, none, some, List, [], ◌∷◌, ok, err,
  Error, Result, arith, All, All-map, length, Bool-cases, ◌==◌, ==_iff, if◌then◌else◌, inl, inr,
}
use flashpoint_submission_sy.Review.Submission.{uid_in}
use flashpoint_submission_sy.Review.Cache.Replay.{uid_in-cons}
use flashpoint_submission_sy.Database.Session.{
  Database, Session, Tx, ◌>>◌, pure, raise, dal_call, get_db,
}
use flashpoint_submission_sy.Database.Locks.{
  lock_submissions, lock_each, lock_one, lock_order, is_active,
}
use flashpoint_submission_sy.Database.Locks.Order.{lock_order-IsAscending}
use flashpoint_submission_sy.Database.Search.{search_submissions}
use flashpoint_submission_sy.Comments.{Environment, review_each}
use flashpoint_submission_sy.Comments.Effect.{View, view, bind_inv, dal_call-Quiet}
use flashpoint_submission_sy.Comments.Soundness.{read_db, guard-Quiet}
use flashpoint_submission_sy.Comments.Receive.{
  CommentForm, Store, receive_comments, process_batch, finish, begin, guard, check_form,
  check_found, message_of,
}

guard_passed : (e : Option Error) (w w' : Session) → guard e w ≡ ok (tt, w') → e ≡ none
unfolding guard raise
guard_passed none w w' h = refl
guard_passed (some x) w w' h = absurd (ground arith)

found_passed :
    (b : Bool) (x : Error) (w w' : Session)
    → (if b then pure tt else raise x) w ≡ ok (tt, w')
    → (b ≡ true) × (w' ≡ w)
unfolding pure raise
found_passed true x w w' h = (refl, ground arith)
found_passed false x w w' h = absurd (ground arith)

lock_one-is_active :
    (sid : ℕ) (w w' : Session)
    → lock_one sid w ≡ ok (tt, w')
    → (is_active sid w.db.submissions ≡ true) × (w'.db ≡ w.db)
unfolding lock_one
lock_one-is_active sid w w' h =
    let inv = bind_inv (dal_call >> get_db) _ w w' tt h in
    let read = read_db w inv.1.0 inv.0 inv.1.1 in
    let found = found_passed (is_active sid (inv.0).submissions) _ inv.1.0 w' inv.1.2 in
    (
      ap (λ (d : Database). is_active sid d.submissions) (sym read.0) ∙ found.0,
      ap (λ (x : Session). x.db) found.1 ∙ read.1,
    )

lock_each-is_active :
    (sids : List ℕ) (w w' : Session)
    → lock_each sids w ≡ ok (tt, w')
    → All (λ sid. is_active sid w.db.submissions ≡ true) sids
unfolding lock_each
lock_each-is_active [] w w' h = tt
lock_each-is_active (sid ∷ sids) w w' h =
    let inv = bind_inv (lock_one sid) (λ u. lock_each sids) w w' tt h in
    let one = lock_one-is_active sid w inv.1.0 inv.1.1 in
    (
      one.0,
      All-map _ _ sids (λ x p. ap (λ (d : Database). is_active x d.submissions) (sym one.1) ∙ p)
          (lock_each-is_active sids inv.1.0 w' inv.1.2),
    )

member : (P : ℕ → Type 0) (a : ℕ) (xs : List ℕ) → All P xs → uid_in a xs ≡ true → P a
unfolding uid_in
member P a [] h e = absurd (ground arith)
member P a (x ∷ xs) h e = elim (Bool-cases (a == x)) [
  | inl same ↦ rw ((==_iff a x).0 same) h.0
  | inr differs ↦ member P a xs h.1 (ground (arith, uid_in-cons a x xs))
]

members :
    (P : ℕ → Type 0) (xs sids : List ℕ)
    → ((a : ℕ) → uid_in a sids ≡ true → uid_in a xs ≡ true)
    → All P xs
    → All P sids
members P xs [] sub h = tt
members P xs (sid ∷ sids) sub h = (
  member P sid xs h (sub sid (ground (arith, uid_in-cons sid sid sids))),
  members P xs sids (λ a e. sub a (ground (arith, uid_in-cons a sid sids))) h,
)

finish_passed :
    (env : Environment) (s : Store) (o : Result (Unit {0} × Session))
    → (finish env s o).failure ≡ none
    → (w : Session) × (o ≡ ok (tt, w))
unfolding finish
finish_passed env s (ok (u, w)) h = (w, refl)
finish_passed env s (err e) h = absurd (ground arith)

process_batch_passed :
    (env : Environment) (uid : ℕ) (ids : List ℕ) (form : CommentForm) (w w' : Session)
    → process_batch env uid ids form w ≡ ok (tt, w')
    → (check_form (length ids) form.action (message_of form.message) ≡ none)
      × All (λ sid. is_active sid w.db.submissions ≡ true) ids
unfolding process_batch lock_submissions
process_batch_passed env uid ids form w w' h =
    let m1 : Tx (Unit {0}) =
      dal_call >> guard (check_form (length ids) form.action (message_of form.message)) in
    let m2 : Tx (Unit {0}) = m1 >> lock_submissions ids in
    let ignore_dupes = str_eq form.ignore_dupe_actions "true" in
    let i1 =
      bind_inv (m2 >> search_submissions ids)
        (λ found.
          guard (check_found ids found)
          >> review_each env uid form.action (message_of form.message) ignore_dupes found)
        w w' tt h in
    let i2 = bind_inv m2 (λ u. search_submissions ids) w i1.1.0 i1.0 i1.1.1 in
    let i3 = bind_inv m1 (λ u. lock_submissions ids) w i2.1.0 i2.0 i2.1.1 in
    let v : Session = i3.1.0 in
    let i4 =
      bind_inv dal_call (λ u. guard (check_form (length ids) form.action (message_of form.message)))
        w v i3.0 i3.1.1 in
    let rows : v.db.submissions ≡ w.db.submissions =
      ap (λ (t : View). t.rows)
        (guard-Quiet (check_form (length ids) form.action (message_of form.message)) (view w) i4.1.0
          v i3.0 i4.1.2 (dal_call-Quiet (view w) w i4.1.0 i4.0 i4.1.1 refl)) in
    let locked = lock_each-is_active (lock_order ids) v i2.1.0 i3.1.2 in
    (
      guard_passed (check_form (length ids) form.action (message_of form.message)) i4.1.0 v i4.1.2,
      members (λ a. is_active a w.db.submissions ≡ true) (lock_order ids) ids
          (λ a e. (lock_order-IsAscending ids a).1 ∙ e) (rw (sym rows) locked),
    )

-- A request that returns no error names a submission, has a form that passes the guards, and names only
-- submissions that are in the table and not deleted.
pub receive_comments-success :
    (env : Environment) (faults : List Bool) (uid : ℕ) (sids : List ℕ) (form : CommentForm)
    (s : Store)
    → (receive_comments env faults uid sids form s).failure ≡ none
    → (sids ≢ [])
      × (check_form (length sids) form.action (message_of form.message) ≡ none)
      × All (λ sid. is_active sid s.db.submissions ≡ true) sids
unfolding receive_comments
receive_comments-success env faults uid [] form s h = absurd (ground arith)
receive_comments-success env faults uid (sid ∷ sids) form s h =
    let w : Session = begin s faults in
    let ended = finish_passed env s (process_batch env uid (sid ∷ sids) form w) h in
    let passed = process_batch_passed env uid (sid ∷ sids) form w ended.0 ended.1 in
    (λ e. cc, passed.0, passed.1)
