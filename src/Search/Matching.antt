-- ===== src/Search/Matching.antt =====
-- The queries of `SearchSubmissions` (database/searchmonster.go) beside their arguments, and the
-- limits of a page.
use Prim.Native.Nat.{◌%◌, ◌^◌}
use mathlib.Core.Path.{subst}
use package.text.Mathlib.Text.{◌==◌ as str_eq}
use flashpoint_submission_sy.Prelude.{
  ℕ, zero, suc, ◌+◌, ◌-◌, ◌*◌, ◌≤◌, ◌<◌, String, ◌≡◌, refl, sym, ltb, Bool-cases, ◌⊎◌, inl, inr,
  false, Option, none, some, List, [], ◌∷◌, ◌++◌, length, if◌then◌else◌, if_both, Result-cases, ok,
  err, Error, arith,
}
use flashpoint_submission_sy.Search.Filter.{ℤ, pos, negsuc, SubmissionsFilter}
use flashpoint_submission_sy.Search.Validation.{is_some, exceeds_thousand, validate}
use flashpoint_submission_sy.Search.Admission.{AtLeastOne, validate_admits}
use flashpoint_submission_sy.Search.Placeholders.{
  placeholders, placeholders_each, join, placeholders-concat, placeholders-join,
}
use flashpoint_submission_sy.Search.Counted.{placeholders-search_from, placeholders-page_query}
use flashpoint_submission_sy.Search.Blocks.{Library, Piece, nothing, int}
use flashpoint_submission_sy.Search.Query.{
  to_int64, mul64, pred64, current_limit, current_offset, current_sort_order, and_of, Built, Paging,
  default_paging, paging, submission_where, legacy_where, comment_args, counting_parts,
  includes_count, assemble, search_query,
}
use flashpoint_submission_sy.Search.Balance.{IsBalanced, nothing-IsBalanced, length-append}
use flashpoint_submission_sy.Search.Conditions.{conditions-IsBalanced}

and_of-IsBare : (ss : List String) → placeholders (and_of ss) ≡ 0
unfolding and_of placeholders
and_of-IsBare [] = refl
and_of-IsBare (s ∷ ss) = refl

placeholders-submission_where :
    (p : Piece) → placeholders (submission_where p) ≡ placeholders_each p.filters
unfolding submission_where placeholders_each placeholders
placeholders-submission_where p = omega (
  arith,
  and_of-IsBare p.filters,
  placeholders-join p.filters " AND " refl,
  placeholders-concat
      (" WHERE submission.deleted_at IS NULL" ∷ and_of p.filters ∷ join p.filters " AND " ∷ []),
)

placeholders-legacy_where :
    (p : Piece) → placeholders (legacy_where p) ≡ placeholders_each p.master_filters
unfolding legacy_where placeholders_each placeholders
placeholders-legacy_where p = omega (
  arith,
  and_of-IsBare p.master_filters,
  placeholders-join p.master_filters " AND " refl,
  placeholders-concat (" WHERE 1" ∷ and_of p.master_filters ∷ join p.master_filters " AND " ∷ []),
)

length-comment_args : (c : Option String) → length (comment_args c) ≡ (if is_some c then 1 else 0)
unfolding comment_args
length-comment_args none = refl
length-comment_args (some s) = refl

-- Both queries have an argument for each placeholder.
abbrev pub IsMatched : Built → Type 0
IsMatched b =
    (placeholders b.final_query ≡ length b.final_args)
    × (placeholders b.counting_query ≡ length b.unlimited_args)

length-unlimited :
    (g : Paging) (p : Piece)
    → length ((comment_args g.comment ++ p.args) ++ p.master_args)
      ≡ (if is_some g.comment then 1 else 0) + length p.args + length p.master_args
length-unlimited g p = omega (
  arith,
  length-append (comment_args g.comment ++ p.args) p.master_args,
  length-append (comment_args g.comment) p.args,
  length-comment_args g.comment,
)

assemble-IsMatched :
    (lib : Library) (g : Paging) (p : Piece)
    → placeholders g.sort_order ≡ 0
    → IsBalanced p
    → IsMatched (assemble lib g p)
unfolding assemble counting_parts placeholders_each placeholders
assemble-IsMatched lib g p bare b =
    let unlimited = (comment_args g.comment ++ p.args) ++ p.master_args in
    let predicates = join p.filters " AND " in
    let counted = is_some g.comment in
    (
      omega (
        arith,
        length-unlimited g p,
        placeholders-submission_where p,
        placeholders-legacy_where p,
        b.0,
        b.1,
        length-append unlimited (int g.limit ∷ int g.offset ∷ []),
        placeholders-page_query lib.contains predicates (submission_where p) (legacy_where p)
            g.order_by counted g.sort_order (includes_count lib g p) bare,
      ),
      omega (
        arith,
        length-unlimited g p,
        placeholders-submission_where p,
        placeholders-legacy_where p,
        b.0,
        b.1,
        placeholders-search_from lib.contains predicates counted,
        placeholders-concat (counting_parts lib g p),
      ),
    )

sort_order-IsBare : (s : Option String) → placeholders (current_sort_order s) ≡ 0
unfolding current_sort_order placeholders
sort_order-IsBare none = refl
sort_order-IsBare (some s) = if_both (λ t. placeholders t ≡ 0) (str_eq s "asc") _ _ refl refl

-- With any filter or none, the search is refused by the filter's validation, or builds two queries
-- that each have exactly as many arguments as placeholders; so no nil pointer is followed either.
pub search_query-IsMatched :
    (lib : Library) (uid : ℤ) (request : Option SubmissionsFilter)
    → ((b : Built) × (search_query lib uid request ≡ ok b) × IsMatched b)
      ⊎ ((sf : SubmissionsFilter) × (e : Error) × (request ≡ some sf)
          × (validate sf ≡ err e)
          × (search_query lib uid request ≡ err e))
unfolding search_query paging placeholders
search_query-IsMatched lib uid none = inl (
  assemble lib default_paging nothing,
  refl,
  assemble-IsMatched lib default_paging nothing refl nothing-IsBalanced,
)
search_query-IsMatched lib uid (some sf) = elim (Result-cases (validate sf)) [
  | inr (e, h) ↦ inr (sf, e, refl, h, rw h refl)
  | inl (f, h) ↦
      let (p, built, b) = conditions-IsBalanced lib uid f ((validate_admits sf f).0 h).1 in
      inl (
        assemble lib (paging f) p,
        rw (h, built) refl,
        assemble-IsMatched lib (paging f) p (sort_order-IsBare f.asc_desc) b,
      )
]

-- The size of a page: the filter's, or a hundred.
abbrev pub SizeOf : Option ℤ → ℕ → Type 0
SizeOf none n = n ≡ 100
SizeOf (some z) n = z ≡ pos n

limit_bounds :
    (size : Option ℤ)
    → AtLeastOne size
    → exceeds_thousand size ≡ false
    → (n : ℕ) × (current_limit size ≡ pos n) × SizeOf size n × (1 ≤ n) × (n ≤ 1000)
unfolding current_limit
limit_bounds none a h = (100, refl, refl, omega arith, omega arith)
limit_bounds (some (pos n)) a h = (n, refl, refl, a, ground arith)
limit_bounds (some (negsuc n)) a h = absurd a

to_int64-small : (m : ℕ) → m < 2 ^ 63 → to_int64 m ≡ pos m
unfolding to_int64
to_int64-small m h = let e : m % 2 ^ 64 ≡ m = omega arith in ground arith

-- The results in front of a page of this size: none without a page, else those on the pages before it,
-- if an int64 holds their number.
abbrev pub OffsetOf : Option ℤ → ℕ → ℤ → Type 0
OffsetOf none n offset = offset ≡ pos 0
OffsetOf (some (pos k)) n offset = (1 ≤ k) × ((offset ≡ pos ((k - 1) * n)) ⊎ (2 ^ 63 ≤ (k - 1) * n))
OffsetOf (some (negsuc k)) n offset = ⊥

page_offset :
    (page : Option ℤ) (n : ℕ) → AtLeastOne page → OffsetOf page n (current_offset page (pos n))
unfolding current_offset mul64 pred64
page_offset none n a = refl
page_offset (some (pos zero)) n a = absurd (omega (arith, a))
page_offset (some (pos (suc j))) n a =
    let e : suc j - 1 ≡ j = omega arith in
    rw e (
      omega arith,
      elim (Bool-cases (ltb (j * n) (2 ^ 63))) [
        | inl small ↦ inl (to_int64-small (j * n) (ground arith))
        | inr big ↦ inr (ground arith)
      ],
    )
page_offset (some (negsuc k)) n a = absurd a

-- A validated filter asks for a page of one to a thousand results, a hundred if it gives no size; and
-- the offset is 0 if it gives no page, and else the number of results on the pages before the one
-- that it gives, which is at least one, unless that number is 2 ^ 63 or more.
pub paging_bounds :
    (sf f : SubmissionsFilter)
    → validate sf ≡ ok f
    → (n : ℕ) × ((paging f).limit ≡ pos n)
      × SizeOf f.results_per_page n
      × (1 ≤ n)
      × (n ≤ 1000)
      × OffsetOf f.page n (paging f).offset
unfolding paging current_limit
paging_bounds sf f h =
    let a = ((validate_admits sf f).0 h).1 in
    let (n, e, size, low, high) = limit_bounds f.results_per_page a.size a.size_within in
    (
      n,
      e,
      size,
      low,
      high,
      subst (λ l. OffsetOf f.page n (current_offset f.page l)) (sym e)
          (page_offset f.page n a.page_number),
    )
