-- ===== src/Search/Query.antt =====
-- The end of `SearchSubmissions` (database/searchmonster.go) before it runs its two queries: limit,
-- offset, order, and the texts with their arguments. The multiplication is an int64's.
use Prim.Native.Nat.{◌%◌, ◌^◌}
use package.text.Mathlib.Text.{◌==◌ as str_eq}
use flashpoint_submission_sy.Prelude.{
  ℕ, zero, suc, ◌+◌, ◌-◌, ◌*◌, ltb, String, Bool, ◌||◌, Option, none, some, List, [], ◌∷◌, ◌++◌,
  if◌then◌else◌, Result, ok, ◌>>=◌,
}
use flashpoint_submission_sy.Search.Filter.{ℤ, pos, negsuc, SubmissionsFilter}
use flashpoint_submission_sy.Search.Validation.{is_some, validate}
use flashpoint_submission_sy.Search.Placeholders.{concat, join}
use flashpoint_submission_sy.Search.Sql.{search_from, page_query}
use flashpoint_submission_sy.Search.Blocks.{Library, Arg, int, str, Piece, nothing}
use flashpoint_submission_sy.Search.Build.{conditions}

-- The int64 with the bits of a natural number, and of its negation.
unfoldable pub to_int64 : ℕ → ℤ
to_int64 n = let r = n % 2 ^ 64 in if ltb r (2 ^ 63) then pos r else negsuc (2 ^ 64 - r - 1)

unfoldable pub negated : ℕ → ℤ
unfolding to_int64
negated n = to_int64 (2 ^ 64 - n % 2 ^ 64)

unfoldable pub mul64 : ℤ → ℤ → ℤ
unfolding to_int64 negated
mul64 (pos a) (pos b) = to_int64 (a * b)
mul64 (pos a) (negsuc b) = negated (a * suc b)
mul64 (negsuc a) (pos b) = negated (suc a * b)
mul64 (negsuc a) (negsuc b) = to_int64 (suc a * suc b)

unfoldable pub pred64 : ℤ → ℤ
unfolding negated
pred64 (pos zero) = negsuc 0
pred64 (pos (suc n)) = pos n
pred64 (negsuc n) = negated (n + 2)

unfoldable pub current_limit : Option ℤ → ℤ
current_limit none = pos 100
current_limit (some n) = n

unfoldable pub current_offset : Option ℤ → ℤ → ℤ
unfolding mul64 pred64
current_offset none limit = pos 0
current_offset (some page) limit = mul64 (pred64 page) limit

unfoldable pub current_order_by : Option String → String
current_order_by none = "updated_at"
current_order_by (some s) =
    if str_eq s "uploaded"
    then "created_at"
    else if str_eq s "updated"
    then "updated_at"
    else if str_eq s "size"
    then "newest_file_size"
    else if str_eq s "title"
    then "meta_title"
    else if str_eq s "platform"
    then "meta_platform"
    else if str_eq s "library"
    then "meta_library"
    else "updated_at"

unfoldable pub current_sort_order : Option String → String
current_sort_order none = "DESC"
current_sort_order (some s) = if str_eq s "asc" then "ASC" else "DESC"

-- ` AND ` in front of some conditions.
unfoldable pub and_of : List String → String
and_of [] = ""
and_of (s ∷ ss) = " AND "

pub record Built : Type 0 where
  pub final_query : String
  pub final_args : List Arg
  pub counting_query : String
  pub unlimited_args : List Arg

-- What of the filter the end of the function reads.
pub record Paging : Type 0 where
  pub comment : Option String
  pub limit : ℤ
  pub offset : ℤ
  pub order_by : String
  pub sort_order : String

abbrev pub default_paging : Paging
default_paging = record {
  comment = none;
  limit = pos 100;
  offset = pos 0;
  order_by = "updated_at";
  sort_order = "DESC";
}

unfoldable pub paging : SubmissionsFilter → Paging
unfolding current_limit current_offset current_order_by current_sort_order
paging f =
    let limit = current_limit f.results_per_page in
    record {
      comment = f.comment_partial;
      limit = limit;
      offset = current_offset f.page limit;
      order_by = current_order_by f.order_by;
      sort_order = current_sort_order f.asc_desc;
    }

unfoldable pub submission_where : Piece → String
unfolding and_of
submission_where p =
    concat (" WHERE submission.deleted_at IS NULL" ∷ and_of p.filters ∷ join p.filters " AND " ∷ [])

unfoldable pub legacy_where : Piece → String
unfolding and_of
legacy_where p = concat (" WHERE 1" ∷ and_of p.master_filters ∷ join p.master_filters " AND " ∷ [])

-- The comment's text comes before the arguments of the ordinary conditions.
unfoldable pub comment_args : Option String → List Arg
comment_args none = []
comment_args (some s) = str s ∷ []

unfoldable pub counting_parts : Library → Paging → Piece → List String
unfolding search_from submission_where legacy_where
counting_parts lib g p =
    "SELECT (SELECT COUNT(DISTINCT submission.id)"
    ∷ search_from lib.contains (join p.filters " AND ") (is_some g.comment)
    ∷ submission_where p
    ∷ ") + (SELECT COUNT(*) FROM masterdb_game"
    ∷ legacy_where p
    ∷ ")"
    ∷ []

unfoldable pub includes_count : Library → Paging → Piece → Bool
includes_count lib g p = lib.contains (join p.filters " AND ") "meta." || is_some g.comment

unfoldable pub assemble : Library → Paging → Piece → Built
unfolding page_query submission_where legacy_where comment_args counting_parts includes_count
assemble lib g p =
    let unlimited = (comment_args g.comment ++ p.args) ++ p.master_args in
    record {
      final_query = concat (
          page_query lib.contains (join p.filters " AND ") (submission_where p) (legacy_where p)
            g.order_by g.sort_order (includes_count lib g p) (is_some g.comment));
      final_args = unlimited ++ (int g.limit ∷ int g.offset ∷ []);
      counting_query = concat (counting_parts lib g p);
      unlimited_args = unlimited;
    }

-- A filter is validated, and its refusal is the search's; no filter selects everything.
unfoldable pub search_query : Library → ℤ → Option SubmissionsFilter → Result Built
unfolding validate conditions assemble paging
search_query lib uid none = ok (assemble lib default_paging nothing)
search_query lib uid (some sf) = do
  f ← validate sf
  p ← conditions lib uid f
  ok (assemble lib (paging f) p)
