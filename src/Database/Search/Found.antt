-- ===== src/Database/Search/Found.antt =====
-- The rows of a search by ids, and the table that they come from.
use flashpoint_submission_sy.Prelude.{
  ℕ, ◌≡◌, ◌≢◌, inl, inr, refl, sym, Bool, some, List, [], ◌∷◌, zero, suc, arith, All, All-map,
  All-zip, All-keep, if_both, keep, Option-cases,
}
use flashpoint_submission_sy.Review.Submission.{ExtendedSubmission}
use flashpoint_submission_sy.Review.Row.{Submission, scan_row}
use flashpoint_submission_sy.Database.Search.{
  take, default_limit, comes_before, insert_row, order_rows, scan_rows, selected_rows,
}

-- No two rows have the same id.
abbrev pub IsUnique : List Submission → Type 0
IsUnique [] = Unit
IsUnique (r ∷ rows) = All (λ q. q.id ≢ r.id) rows × IsUnique rows

keep-IsUnique :
    (p : Submission → Bool) (rows : List Submission) → IsUnique rows → IsUnique (keep p rows)
keep-IsUnique p [] h = tt
keep-IsUnique p (r ∷ rows) h =
    if_both IsUnique (p r) (r ∷ keep p rows) (keep p rows)
      (All-keep _ p rows h.0, keep-IsUnique p rows h.1) (keep-IsUnique p rows h.1)

insert_row-All :
    (P : Submission → Type 0) (r : Submission) (rows : List Submission)
    → P r
    → All P rows
    → All P (insert_row r rows)
unfolding insert_row
insert_row-All P r [] p h = (p, tt)
insert_row-All P r (q ∷ rows) p h =
    if_both (All P) (comes_before q r) (q ∷ insert_row r rows) (r ∷ q ∷ rows)
      (h.0, insert_row-All P r rows p h.1) (p, h)

insert_row-IsUnique :
    (r : Submission) (rows : List Submission)
    → All (λ q. q.id ≢ r.id) rows
    → IsUnique rows
    → IsUnique (insert_row r rows)
unfolding insert_row
insert_row-IsUnique r [] h u = (tt, tt)
insert_row-IsUnique r (q ∷ rows) h u =
    if_both IsUnique (comes_before q r) (q ∷ insert_row r rows) (r ∷ q ∷ rows)
      (insert_row-All _ r rows (λ same. h.0 (sym same)) u.0, insert_row-IsUnique r rows h.1 u.1)
      (h, u)

order_rows-All :
    (P : Submission → Type 0) (rows : List Submission) → All P rows → All P (order_rows rows)
unfolding order_rows
order_rows-All P [] h = tt
order_rows-All P (r ∷ rows) h = insert_row-All P r (order_rows rows) h.0 (order_rows-All P rows h.1)

order_rows-IsUnique : (rows : List Submission) → IsUnique rows → IsUnique (order_rows rows)
unfolding order_rows
order_rows-IsUnique [] h = tt
order_rows-IsUnique (r ∷ rows) h =
    insert_row-IsUnique r (order_rows rows) (order_rows-All _ rows h.0)
      (order_rows-IsUnique rows h.1)

take-All :
    (P : Submission → Type 0) (n : ℕ) (rows : List Submission) → All P rows → All P (take n rows)
take-All P zero rows h = tt
take-All P (suc n) [] h = tt
take-All P (suc n) (r ∷ rows) h = (h.0, take-All P n rows h.1)

take-IsUnique : (n : ℕ) (rows : List Submission) → IsUnique rows → IsUnique (take n rows)
take-IsUnique zero rows h = tt
take-IsUnique (suc n) [] h = tt
take-IsUnique (suc n) (r ∷ rows) h = (take-All _ n rows h.0, take-IsUnique n rows h.1)

pub selected_rows-All :
    (P : Submission → Type 0) (sids : List ℕ) (rows : List Submission)
    → All P rows
    → All P (selected_rows sids rows)
unfolding selected_rows
selected_rows-All P sids rows h =
    take-All P default_limit _ (order_rows-All P _ (All-keep P _ rows h))

pub selected_rows-IsUnique :
    (sids : List ℕ) (rows : List Submission) → IsUnique rows → IsUnique (selected_rows sids rows)
unfolding selected_rows
selected_rows-IsUnique sids rows h =
    take-IsUnique default_limit _ (order_rows-IsUnique _ (keep-IsUnique _ rows h))

-- A table without a repeated id has one row for an id.
abbrev pub IsOnly : Submission → Submission → Type 0
IsOnly r q = q.id ≡ r.id → q ≡ r

pub IsUnique-IsOnly : (rows : List Submission) → IsUnique rows → All (λ r. All (IsOnly r) rows) rows
IsUnique-IsOnly [] h = tt
IsUnique-IsOnly (x ∷ xs) h = (
  (λ e. refl, All-map _ _ xs (λ q n e. absurd (n e)) h.0),
  All-map _ _ xs (λ r p. ((λ e. absurd (p.0 (sym e))), p.1))
      (All-zip _ _ xs h.0 (IsUnique-IsOnly xs h.1)),
)

pub scan_row_id :
    (r : Submission) (s : ExtendedSubmission) → scan_row r ≡ some s → s.submission_id ≡ r.id
unfolding scan_row
scan_row_id r s e = ground arith

-- The rows of a search are scanned one by one.
pub scan_rows_inv :
    (r : Submission) (rows : List Submission) (found : List ExtendedSubmission)
    → scan_rows (r ∷ rows) ≡ some found
    → (s : ExtendedSubmission) × ((rest : List ExtendedSubmission) × (scan_row r ≡ some s)
        × (scan_rows rows ≡ some rest)
        × (found ≡ s ∷ rest))
unfolding scan_rows
scan_rows_inv r rows found e = elim (Option-cases (scan_row r)) [
  | inl q ↦ absurd (ground arith)
  | inr (s, q) ↦ elim (Option-cases (scan_rows rows)) [
    | inl q' ↦ absurd (ground arith)
    | inr (rest, q') ↦ (s, (rest, q, q', ground arith))
  ]
]
