-- ===== src/Review/Tables.antt =====
-- The rows of one submission in the MySQL tables `comment` and `submission_file`. A table has no
-- order; a list holds its rows with the one stored last in front. Times are microseconds.
use flashpoint_submission_sy.Prelude.{
  ℕ, String, Bool, ◌&&◌, ◌||◌, Option, none, some, List, [], ◌∷◌, ltb, ◌==◌, if◌then◌else◌,
}
use flashpoint_submission_sy.Constants.Actions.{Action}

pub record Comment : Type 0 where
  pub id : ℕ
  pub author_id : ℕ
  pub message : Option String
  pub action : Action
  pub created_at : ℕ
  pub deleted : Bool

pub record SubmissionFile : Type 0 where
  pub id : ℕ
  pub submitter_id : ℕ
  pub original_filename : String
  pub current_filename : String
  pub md5sum : String
  pub sha256sum : String
  pub created_at : ℕ
  pub deleted : Bool

-- `ORDER BY created_at DESC, id DESC`: does the row (t, i) come before the row (t', i')?
abbrev pub after : ℕ → ℕ → ℕ → ℕ → Bool
after t i t' i' = ltb t' t || (t == t' && ltb i' i)

-- The first of a comment and the best one so far under that order.
abbrev pub later_comment : Comment → Option Comment → Comment
later_comment c none = c
later_comment c (some d) = if after d.created_at d.id c.created_at c.id then d else c

abbrev pub later_file : SubmissionFile → Option SubmissionFile → SubmissionFile
later_file f none = f
later_file f (some g) = if after g.created_at g.id f.created_at f.id then g else f

abbrev pub earlier_file : SubmissionFile → Option SubmissionFile → SubmissionFile
earlier_file f none = f
earlier_file f (some g) = if after f.created_at f.id g.created_at g.id then g else f

-- `SELECT ... FROM comment WHERE test ORDER BY created_at DESC, id DESC LIMIT 1`
unfoldable pub newest_comment : (Comment → Bool) → List Comment → Option Comment
newest_comment test [] = none
newest_comment test (c ∷ cs) =
    let rest = newest_comment test cs in if test c then some (later_comment c rest) else rest

-- `fk_newest_file_id`: the newest active file.
unfoldable pub newest_file : List SubmissionFile → Option SubmissionFile
newest_file [] = none
newest_file (f ∷ fs) =
    let rest = newest_file fs in if f.deleted then rest else some (later_file f rest)

-- `fk_oldest_file_id`: the oldest active file.
unfoldable pub oldest_file : List SubmissionFile → Option SubmissionFile
oldest_file [] = none
oldest_file (f ∷ fs) =
    let rest = oldest_file fs in if f.deleted then rest else some (earlier_file f rest)
