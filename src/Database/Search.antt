-- ===== src/Database/Search.antt =====
-- database/searchmonster.go and submission_search_query.go: `SearchSubmissions` for a filter that
-- holds nothing but submission ids, which the review uses.
pub mod Found
use flashpoint_submission_sy.Prelude.{
  ℕ, Bool, ◌&&◌, ◌||◌, not, Option, none, some, List, [], ◌∷◌, ok, err, dberr, if◌then◌else◌, ◌==◌,
  keep, zero, suc, ltb,
}
use flashpoint_submission_sy.Review.Submission.{ExtendedSubmission, uid_in}
use flashpoint_submission_sy.Review.Tables.{Comment}
use flashpoint_submission_sy.Review.Row.{Submission, scan_row}
use flashpoint_submission_sy.Database.Session.{Tx, ◌>>=◌, ◌>>◌, dal_call, get_db}

-- `defaultLimit`
abbrev pub default_limit : ℕ
default_limit = 100

abbrev pub take {ℓ} : {A : Type ℓ} → ℕ → List A → List A
take zero xs = []
take (suc n) [] = []
take (suc n) (x ∷ xs) = x ∷ take n xs

-- `newest_comment.created_at`, the default order; NULL sorts behind every time.
abbrev pub updated_at : Option Comment → ℕ
updated_at none = 0
updated_at (some c) = suc c.created_at

abbrev pub sort_value : Submission → ℕ
sort_value r = updated_at r.cache.newest_comment

-- `ORDER BY sort_value DESC, submission_id ASC`
abbrev pub comes_before : Submission → Submission → Bool
comes_before r q =
    ltb (sort_value q) (sort_value r) || (sort_value r == sort_value q && ltb r.id q.id)

unfoldable pub insert_row : Submission → List Submission → List Submission
insert_row r [] = r ∷ []
insert_row r (q ∷ qs) =
    let rest = insert_row r qs in if comes_before q r then q ∷ rest else r ∷ q ∷ qs

unfoldable pub order_rows : List Submission → List Submission
order_rows [] = []
order_rows (r ∷ rs) = insert_row r (order_rows rs)

-- `rows.Scan` of each row.
unfoldable pub scan_rows : List Submission → Option (List ExtendedSubmission)
scan_rows [] = some []
scan_rows (r ∷ rs) =
    let rest = scan_rows rs in
    elim (scan_row r) [ none ↦ none | some s ↦ elim rest [ none ↦ none | some ss ↦ some (s ∷ ss) ] ]

-- The rows that are selected: active ones with an id of the filter, the first hundred of them.
unfoldable pub selected_rows : List ℕ → List Submission → List Submission
unfolding order_rows insert_row
selected_rows sids rows =
    take default_limit (order_rows (keep (λ r. not r.deleted && uid_in r.id sids) rows))

-- A row that does not scan is an error of the search.
unfoldable pub selected : Option (List ExtendedSubmission) → Tx (List ExtendedSubmission)
selected none w = err dberr
selected (some found) w = ok (found, w)

unfoldable pub search_submissions : List ℕ → Tx (List ExtendedSubmission)
unfolding selected_rows scan_rows selected ◌>>=◌ dal_call get_db
search_submissions sids =
    dal_call >> get_db >>= λ db. selected (scan_rows (selected_rows sids db.submissions))
