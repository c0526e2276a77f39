-- ===== src/Search/Aligned.antt =====
-- The placeholders of the remaining blocks of database/searchmonster.go, beside their arguments.
use package.text.Mathlib.Text.{◌==◌ as str_eq}
use flashpoint_submission_sy.Prelude.{
  ◌+◌, String, ◌≡◌, refl, inl, inr, Bool-cases, Option, none, some, List, [], ◌∷◌, map, length,
  if_both, All, arith,
}
use flashpoint_submission_sy.Search.Filter.{ℤ}
use flashpoint_submission_sy.Search.Placeholders.{
  placeholders, placeholders_each, concat, repeat, placeholders-concat, placeholders-repeat,
  placeholders_each-append,
}
use flashpoint_submission_sy.Search.Blocks.{
  Library, Piece, submissions_only, like, additional_applications_block, last_uploader_block,
  subscribed_block, content_change_block, frozen_block,
}
use flashpoint_submission_sy.Search.Multifilter.{
  Terms, terms, comparisons, column_filters, term_args, terms_block, multifilter,
}
use flashpoint_submission_sy.Search.Build.{legacy_excluded, append_piece, append_pieces}
use flashpoint_submission_sy.Search.Balance.{
  IsBalanced, nothing-IsBalanced, length-map, length-append,
}

placeholders-comparisons :
    (column comparison connective : String) (ss : List String)
    → placeholders column ≡ 0
    → placeholders comparison ≡ 1
    → placeholders connective ≡ 0
    → placeholders_each (comparisons column comparison connective ss) ≡ length ss
unfolding comparisons placeholders_each placeholders
placeholders-comparisons column comparison connective [] h p c = refl
placeholders-comparisons column comparison connective (s ∷ ss) h p c =
    let one = concat ("(" ∷ column ∷ comparison ∷ []) in
    let more = concat (connective ∷ one ∷ []) in
    let ones : placeholders one ≡ 1 =
      omega (arith, h, p, placeholders-concat ("(" ∷ column ∷ comparison ∷ [])) in
    let mores : placeholders more ≡ 1 =
      omega (arith, ones, c, placeholders-concat (connective ∷ one ∷ [])) in
    grind (
      arith,
      ones,
      mores,
      placeholders-repeat more (length ss),
      placeholders-concat ("(" ∷ one ∷ repeat more (length ss) ∷ ")" ∷ []),
    )

placeholders-column_filters :
    (column : String) (t : Terms)
    → placeholders column ≡ 0
    → placeholders_each (column_filters column t) ≡ length (term_args t)
unfolding column_filters term_args placeholders
placeholders-column_filters column t h = omega (
  arith,
  placeholders_each-append (comparisons column " LIKE ?)" " OR " t.include)
      (comparisons column " NOT LIKE ?)" " AND " t.exclude),
  placeholders-comparisons column " LIKE ?)" " OR " t.include h refl refl,
  placeholders-comparisons column " NOT LIKE ?)" " AND " t.exclude h refl refl,
  length-append (map like t.include) (map like t.exclude),
  length-map like t.include,
  length-map like t.exclude,
)

abbrev pub IsBareName : Option String → Type 0
IsBareName none = Unit
IsBareName (some s) = placeholders s ≡ 0

terms_block-IsBalanced :
    (column : String) (master : Option String) (t : Terms)
    → placeholders column ≡ 0
    → IsBareName master
    → IsBalanced (terms_block column master t)
unfolding terms_block placeholders_each
terms_block-IsBalanced column none t h m = (placeholders-column_filters column t h, refl)
terms_block-IsBalanced column (some s) t h m =
    (placeholders-column_filters column t h, placeholders-column_filters s t m)

pub multifilter-IsBalanced :
    (lib : Library) (column : String) (master : Option String) (s : String)
    → placeholders column ≡ 0
    → IsBareName master
    → IsBalanced (multifilter lib column master s)
unfolding multifilter
multifilter-IsBalanced lib column master s h m =
    terms_block-IsBalanced column master (terms (map lib.trim_space (lib.split_commas s))) h m

pub append_piece-IsBalanced :
    (p q : Piece) → IsBalanced p → IsBalanced q → IsBalanced (append_piece p q)
unfolding append_piece
append_piece-IsBalanced p q a b = (
  omega
      (arith, placeholders_each-append p.filters q.filters, length-append p.args q.args, a.0, b.0),
  omega (
    arith,
    placeholders_each-append p.master_filters q.master_filters,
    length-append p.master_args q.master_args,
    a.1,
    b.1,
  ),
)

pub append_pieces-IsBalanced : (ps : List Piece) → All IsBalanced ps → IsBalanced (append_pieces ps)
unfolding append_pieces
append_pieces-IsBalanced [] h = nothing-IsBalanced
append_pieces-IsBalanced (p ∷ ps) h =
    append_piece-IsBalanced p (append_pieces ps) h.0 (append_pieces-IsBalanced ps h.1)

pub legacy_excluded-IsBalanced : IsBalanced legacy_excluded
unfolding legacy_excluded placeholders_each placeholders
legacy_excluded-IsBalanced = (refl, refl)

pub applications-IsBalanced : (s : String) → IsBalanced (additional_applications_block s)
unfolding additional_applications_block submissions_only placeholders_each placeholders
applications-IsBalanced s = elim (Bool-cases (str_eq s "no")) [
  | inl t ↦ rw t (refl, refl)
  | inr t ↦ rw t (refl, refl)
]

pub last_uploader-IsBalanced : (uid : ℤ) (s : String) → IsBalanced (last_uploader_block uid s)
unfolding last_uploader_block submissions_only placeholders_each placeholders
last_uploader-IsBalanced uid s = if_both IsBalanced (str_eq s "yes") _ _ (refl, refl) (refl, refl)

pub subscribed-IsBalanced : (uid : ℤ) (s : String) → IsBalanced (subscribed_block uid s)
unfolding subscribed_block submissions_only placeholders_each placeholders
subscribed-IsBalanced uid s =
    (if_both (λ fs. placeholders_each fs ≡ 1) (str_eq s "yes") _ _ refl refl, refl)

pub content_change-IsBalanced : (s : String) → IsBalanced (content_change_block s)
unfolding content_change_block submissions_only placeholders_each placeholders
content_change-IsBalanced s =
    (if_both (λ (c : String). placeholders c + 0 ≡ 0) (str_eq s "yes") _ _ refl refl, refl)

pub frozen-IsBalanced : (s : String) → IsBalanced (frozen_block s)
unfolding frozen_block submissions_only placeholders_each placeholders
frozen-IsBalanced s = (
  if_both (λ fs. placeholders_each fs ≡ 0) (str_eq s "no") _ _ refl
      (if_both (λ fs. placeholders_each fs ≡ 0) (str_eq s "yes") _ _ refl refl),
  refl,
)
