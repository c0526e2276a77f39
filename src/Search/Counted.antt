-- ===== src/Search/Counted.antt =====
-- The placeholders of the query's text (database/submission_search_query.go).
use package.text.Mathlib.Text.{◌==◌ as str_eq}
use flashpoint_submission_sy.Prelude.{
  ◌+◌, String, ◌≡◌, refl, Bool, true, false, List, [], ◌∷◌, if◌then◌else◌, if_both, All, arith,
}
use flashpoint_submission_sy.Search.Placeholders.{
  placeholders, placeholders_each, concat, join, placeholders-append, placeholders-concat,
}
use flashpoint_submission_sy.Search.Sql.{
  only, base_from, joins, search_from, needs_meta, needs_newest, needs_oldest, needs_comment,
  needs_cache, Order, orders, selects, counted_rows, matches, expressions, meta_id, meta_join,
  page_rows, page_query,
}

abbrev IsBare : String → Type 0
IsBare s = placeholders s ≡ 0

only-IsBare : (needed : Bool) (sql : String) → IsBare sql → IsBare (only needed sql)
unfolding only placeholders
only-IsBare needed sql h = if_both IsBare needed sql "" h refl

concat-IsBare : (ss : List String) → All IsBare ss → IsBare (concat ss)
unfolding placeholders
concat-IsBare [] h = refl
concat-IsBare (s ∷ ss) h =
    omega (arith, placeholders-append s (concat ss), h.0, concat-IsBare ss h.1)

placeholders-base_from : (b : Bool) → placeholders (base_from b) ≡ (if b then 1 else 0)
unfolding base_from placeholders
placeholders-base_from true = refl
placeholders-base_from false = refl

joins-IsBare : (contains : String → String → Bool) (e : String) → All IsBare (joins contains e)
unfolding joins placeholders
joins-IsBare contains e = (
  only-IsBare (needs_cache contains e) _ refl,
  (
    only-IsBare (needs_oldest contains e) _ refl,
    (
      only-IsBare (needs_newest contains e) _ refl,
      (
        only-IsBare (needs_comment contains e) _ refl,
        (
          only-IsBare (contains e "uploader.") _ refl,
          (
            only-IsBare (contains e "updater.") _ refl,
            (only-IsBare (needs_meta contains e) _ refl, tt),
          ),
        ),
      ),
    ),
  ),
)

pub placeholders-search_from :
    (contains : String → String → Bool) (e : String) (search_comments : Bool)
    → placeholders (search_from contains e search_comments) ≡ (if search_comments then 1 else 0)
unfolding search_from
placeholders-search_from contains e search_comments = omega (
  arith,
  placeholders-append (base_from search_comments) (concat (joins contains e)),
  placeholders-base_from search_comments,
  concat-IsBare (joins contains e) (joins-IsBare contains e),
)

orders-IsBare : (order : String) → IsBare (orders order).sort × IsBare (orders order).legacy_sort
unfolding orders placeholders
orders-IsBare order =
    choose (str_eq order "created_at") _ _ (refl, refl)
      (choose (str_eq order "updated_at") _ _ (refl, refl)
        (choose (str_eq order "newest_file_size") _ _ (refl, refl)
          (choose (str_eq order "meta_title") _ _ (refl, refl)
            (choose (str_eq order "meta_platform") _ _ (refl, refl)
              (choose (str_eq order "meta_library") _ _ (refl, refl) (refl, refl))))))
  where
    choose :
        (b : Bool) (x y : Order)
        → IsBare x.sort × IsBare x.legacy_sort
        → IsBare y.sort × IsBare y.legacy_sort
        → IsBare (if b then x else y).sort × IsBare (if b then x else y).legacy_sort
    choose = if_both (λ o. IsBare o.sort × IsBare o.legacy_sort)

selects-IsBare : (include_count : Bool) → IsBare (selects include_count)
unfolding selects join placeholders
selects-IsBare true = refl
selects-IsBare false = refl

placeholders-matches :
    (include_count : Bool) (page : String)
    → placeholders (matches include_count page) ≡ placeholders page
unfolding matches counted_rows placeholders placeholders_each
placeholders-matches true page = omega (arith, placeholders-concat (counted_rows page))
placeholders-matches false page = refl

meta_id-IsBare : (contains : String → String → Bool) (e : String) → IsBare (meta_id contains e)
unfolding meta_id placeholders
meta_id-IsBare contains e = if_both IsBare (contains e "meta.") _ _ refl refl

meta_join-IsBare : (contains : String → String → Bool) (e : String) → IsBare (meta_join contains e)
unfolding meta_join placeholders
meta_join-IsBare contains e = if_both IsBare (contains e "meta.") _ _ refl refl

module _ (contains : String → String → Bool) (predicates where_part legacy_where order : String)
    (search_comments : Bool) where
  placeholders-page_rows :
      placeholders
        (concat (page_rows contains predicates where_part legacy_where order search_comments))
      ≡ (if search_comments then 1 else 0) + placeholders where_part + placeholders legacy_where
  unfolding page_rows placeholders placeholders_each
  placeholders-page_rows =
      let e = expressions predicates order in
      let (sort, legacy_sort) = orders-IsBare order in
      omega (
        arith,
        placeholders-concat
            (page_rows contains predicates where_part legacy_where order search_comments),
        placeholders-search_from contains e search_comments,
        meta_id-IsBare contains e,
        sort,
        legacy_sort,
      )

  -- The placeholders of the whole query: the comment's, those of the two conditions, and the limits'.
  pub placeholders-page_query :
      (direction : String) (include_count : Bool)
      → placeholders direction ≡ 0
      → placeholders (
          concat (
            page_query contains predicates where_part legacy_where order direction include_count
              search_comments))
        ≡ (if search_comments then 1 else 0)
          + placeholders where_part
          + placeholders legacy_where
          + 2
  unfolding page_query placeholders placeholders_each
  placeholders-page_query direction include_count bare =
      let page = page_rows contains predicates where_part legacy_where order search_comments in
      let counted_page = placeholders-matches include_count (concat page) in
      omega (
        arith,
        placeholders-concat (
            page_query contains predicates where_part legacy_where order direction include_count
              search_comments),
        counted_page,
        placeholders-page_rows,
        bare,
        selects-IsBare include_count,
        meta_join-IsBare contains (expressions predicates order),
      )
