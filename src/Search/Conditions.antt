-- ===== src/Search/Conditions.antt =====
-- The whole of the conditions that `SearchSubmissions` (database/searchmonster.go) builds, beside
-- their arguments.
use flashpoint_submission_sy.Prelude.{
  String, ◌≡◌, refl, true, false, not, Option, none, some, List, [], ◌∷◌, ◌++◌, All, Result, ok,
  ◌&&◌, arith,
}
use flashpoint_submission_sy.Search.Filter.{ℤ, SubmissionsFilter}
use flashpoint_submission_sy.Search.Validation.{is_word, is_some, user_checks, asks_for_user}
use flashpoint_submission_sy.Search.Admission.{AllPass, IsAdmitted}
use flashpoint_submission_sy.Search.Placeholders.{placeholders}
use flashpoint_submission_sy.Search.Blocks.{
  Library, str, Piece, nothing, mark_block, user_mark_block,
}
use flashpoint_submission_sy.Search.Build.{
  content_blocks, status_blocks, user_blocks, other_blocks, collect, append_pieces, conditions,
}
use flashpoint_submission_sy.Search.Balance.{IsBalanced, nothing-IsBalanced, mark_block-IsBalanced}
use flashpoint_submission_sy.Search.Aligned.{append_pieces-IsBalanced}
use flashpoint_submission_sy.Search.Pieces.{
  AreBalanced, content_blocks-AreBalanced, other_blocks-AreBalanced, status_blocks-AreBalanced,
}

user_mark_block-ok :
    (format_int : ℤ → String) (unset set column : String) (user : Option ℤ) (value : Option String)
    → placeholders column ≡ 0
    → is_word value (unset ∷ set ∷ []) ≡ true
    → (is_some value ≡ true → is_some user ≡ true)
    → (p : Piece) × (user_mark_block format_int unset set column user value ≡ ok p) × IsBalanced p
unfolding user_mark_block
user_mark_block-ok format_int unset set column user none h known user_given =
    (nothing, refl, nothing-IsBalanced)
user_mark_block-ok format_int unset set column none (some s) h known user_given =
    let no = user_given refl in absurd (ground arith)
user_mark_block-ok format_int unset set column (some id) (some s) h known user_given = (
  mark_block unset set column (str (format_int id)) s,
  refl,
  mark_block-IsBalanced unset set column (str (format_int id)) s h known,
)

collect-ok :
    (rs : List (Result Piece))
    → All (λ r. (p : Piece) × (r ≡ ok p) × IsBalanced p) rs
    → (ps : List Piece) × (collect rs ≡ ok ps) × AreBalanced ps
unfolding collect
collect-ok [] h = ([], refl, tt)
collect-ok (r ∷ rs) h =
    let (p, e, b) = h.0 in
    let (ps, es, bs) = collect-ok rs h.1 in (p ∷ ps, rw (e, es) refl, (b, bs))

All-append {ℓ κ} :
    {A : Type ℓ} (P : A → Type κ) (xs ys : List A) → All P xs → All P ys → All P (xs ++ ys)
All-append P [] ys h k = k
All-append P (x ∷ xs) ys h k = (h.0, All-append P xs ys h.1 k)

module _ (lib : Library) (uid : ℤ) (f : SubmissionsFilter) where
  user_blocks-ok :
      AllPass (user_checks f)
      → (not (is_some f.assigned_status_user_id) && asks_for_user f) ≡ false
      → (ps : List Piece) × (collect (user_blocks lib uid f) ≡ ok ps) × AreBalanced ps
  unfolding user_blocks user_checks asks_for_user placeholders
  user_blocks-ok h user_given =
      let block = user_mark_block-ok lib.format_int in
      let user = f.assigned_status_user_id in
      collect-ok (user_blocks lib uid f) (
        block _ _ "active_assigned_testing_ids" user f.assigned_status_testing_user refl h.0
            (λ t. ground arith),
        (
          block _ _ "active_assigned_verification_ids" user f.assigned_status_verification_user refl
              h.1.0 (λ t. ground arith),
          (
            block _ _ "active_requested_changes_ids" user f.requested_changed_status_user refl
                h.1.1.0 (λ t. ground arith),
            (
              block _ _ "active_approved_ids" user f.approvals_status_user refl h.1.1.1.0
                  (λ t. ground arith),
              (
                block _ _ "active_verified_ids" user f.verification_status_user refl h.1.1.1.1.0
                    (λ t. ground arith),
                tt,
              ),
            ),
          ),
        ),
      )

  -- The conditions of a validated filter are built, with an argument for each placeholder.
  pub conditions-IsBalanced :
      IsAdmitted f → (p : Piece) × (conditions lib uid f ≡ ok p) × IsBalanced p
  unfolding conditions
  conditions-IsBalanced h =
      let (marks, e, b) = user_blocks-ok h.user_statuses h.user_given in
      let after_statuses : List Piece = marks ++ other_blocks lib uid f in
      let after_content : List Piece = status_blocks lib uid f ++ after_statuses in
      let all = content_blocks lib uid f ++ after_content in
      (
        append_pieces all,
        rw e refl,
        append_pieces-IsBalanced all (
            All-append IsBalanced (content_blocks lib uid f) after_content
              (content_blocks-AreBalanced lib uid f)
              (All-append IsBalanced (status_blocks lib uid f) after_statuses
                (status_blocks-AreBalanced lib uid f h.statuses)
                (All-append IsBalanced marks (other_blocks lib uid f) b
                  (other_blocks-AreBalanced lib uid f)))),
      )
