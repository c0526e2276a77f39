-- ===== src/Search/Multifilter.antt =====
-- `addMultifilter` of database/searchmonster.go: words between commas, those with a `!` to exclude.
use Prim.Native.Char.{code}
use flashpoint_submission_sy.Prelude.{
  String, Option, none, some, List, [], ◌∷◌, ◌++◌, map, length, if◌then◌else◌, ◌==◌,
}
use flashpoint_submission_sy.Search.Placeholders.{concat, repeat}
use flashpoint_submission_sy.Search.Blocks.{Library, Arg, Piece, like}

pub record Terms : Type 0 where
  pub include : List String
  pub exclude : List String

-- A trimmed word: nothing if it is empty, and to exclude if it starts with `!`.
unfoldable pub add_term : String → Terms → Terms
add_term String.[] t = t
add_term (String.◌∷◌ c s) t =
    if code c == b'!'
    then record t { exclude = s ∷ t.exclude }
    else record t { include = String.◌∷◌ c s ∷ t.include }

unfoldable pub terms : List String → Terms
terms [] = record { include = []; exclude = [] }
terms (s ∷ ss) = add_term s (terms ss)

-- The comparison of a column, once for each word.
unfoldable pub comparisons : String → String → String → List String → List String
comparisons column comparison connective [] = []
comparisons column comparison connective (s ∷ ss) =
    let placeholder = concat ("(" ∷ column ∷ comparison ∷ []) in
    concat
      ("(" ∷ placeholder ∷ repeat (concat (connective ∷ placeholder ∷ [])) (length ss) ∷ ")" ∷ [])
    ∷ []

unfoldable pub column_filters : String → Terms → List String
unfolding comparisons
column_filters column t =
    comparisons column " LIKE ?)" " OR " t.include
    ++ comparisons column " NOT LIKE ?)" " AND " t.exclude

unfoldable pub term_args : Terms → List Arg
unfolding like
term_args t = map like t.include ++ map like t.exclude

unfoldable pub terms_block : String → Option String → Terms → Piece
unfolding column_filters term_args
terms_block column none t = record {
  filters = column_filters column t;
  master_filters = [];
  args = term_args t;
  master_args = [];
}
terms_block column (some master_column) t = record {
  filters = column_filters column t;
  master_filters = column_filters master_column t;
  args = term_args t;
  master_args = term_args t;
}

unfoldable pub multifilter : Library → String → Option String → String → Piece
unfolding terms add_term terms_block
multifilter lib column master_column contents =
    terms_block column master_column (terms (map lib.trim_space (lib.split_commas contents)))
