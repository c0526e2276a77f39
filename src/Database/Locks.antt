-- ===== src/Database/Locks.antt =====
-- database/submission_locks.go: `LockSubmissions`. `slices.Sort` and `slices.Compact` are written out.
pub mod Order
use flashpoint_submission_sy.Prelude.{
  ℕ, ◌<◌, ◌≤◌, ◌≡◌, refl, Bool, true, false, ◌&&◌, ◌||◌, not, List, [], ◌∷◌, if◌then◌else◌, leb,
  ◌==◌, ==_iff, any, arith, Error, perr, text, not_found,
}
use flashpoint_submission_sy.Review.Submission.{uid_in}
use flashpoint_submission_sy.Review.Row.{Submission}
use flashpoint_submission_sy.Database.Session.{
  Session, Tx, ◌>>=◌, ◌>>◌, pure, raise, dal_call, get_db,
}

unfoldable pub insert_sorted : ℕ → List ℕ → List ℕ
insert_sorted x [] = x ∷ []
insert_sorted x (y ∷ ys) = let rest = insert_sorted x ys in if leb x y then x ∷ y ∷ ys else y ∷ rest

unfoldable pub sort : List ℕ → List ℕ
sort [] = []
sort (x ∷ xs) = insert_sorted x (sort xs)

abbrev pub push_new : ℕ → List ℕ → List ℕ
push_new x [] = x ∷ []
push_new x (y ∷ ys) = if x == y then y ∷ ys else x ∷ y ∷ ys

-- Equal neighbours become one.
unfoldable pub compact : List ℕ → List ℕ
compact [] = []
compact (x ∷ xs) = push_new x (compact xs)

unfoldable pub lock_order : List ℕ → List ℕ
unfolding sort insert_sorted compact
lock_order ids = compact (sort ids)

-- `SELECT id FROM submission WHERE id = ? AND deleted_at IS NULL FOR UPDATE`
unfoldable pub is_active : ℕ → List Submission → Bool
is_active sid rows = any (λ r. r.id == sid && not r.deleted) rows

unfoldable pub lock_one : ℕ → Tx (Unit {0})
unfolding ◌>>=◌ dal_call get_db pure raise
lock_one sid = dal_call >> get_db >>= λ db.
    if is_active sid db.submissions
    then pure tt
    else raise (perr (text "submission not found") not_found)

unfoldable pub lock_each : List ℕ → Tx (Unit {0})
unfolding lock_one
lock_each [] = pure tt
lock_each (sid ∷ sids) = let rest = lock_each sids in lock_one sid >> rest

-- With the callers' translation of `sql.ErrNoRows` to 404.
unfoldable pub lock_submissions : List ℕ → Tx (Unit {0})
unfolding lock_each
lock_submissions ids = lock_each (lock_order ids)
