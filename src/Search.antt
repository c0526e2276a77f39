-- ===== src/Search.antt =====
-- The search of submissions by a filter: its fields and their validation (types/types.go) and the SQL
-- that it becomes (database/searchmonster.go, database/submission_search_query.go). Filter has the
-- fields, Validation the checks, Blocks what each field appends, Sql the query's text, Build the
-- whole; Admission, Stripped, Validity, Balance and Pieces are about them.
pub mod Filter
pub mod Validation
pub mod Admission
pub mod Stripped
pub mod Validity
pub mod Placeholders
pub mod Sql
pub mod Counted
pub mod Blocks
pub mod Multifilter
pub mod Build
pub mod Query
pub mod Balance
pub mod Aligned
pub mod Pieces
pub mod Conditions
pub mod Matching
