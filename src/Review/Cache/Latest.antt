-- ===== src/Review/Cache/Latest.antt =====
-- The newest row of a table, when rows are stored in the order of their times.
use flashpoint_submission_sy.Prelude.{
  ℕ, ◌<◌, ◌≡◌, refl, Bool, Option, none, some, List, [], ◌∷◌, arith, All, if◌then◌else◌,
}
use flashpoint_submission_sy.Review.Tables.{Comment, later_comment, newest_comment}

-- Every comment of the table is older than the time.
abbrev pub Precedes : List Comment → ℕ → Type 0
Precedes cs t = All (λ c. c.created_at < t) cs

abbrev pub OlderThan : ℕ → Option Comment → Type 0
OlderThan t none = Unit
OlderThan t (some c) = c.created_at < t

pub newest_comment-OlderThan :
    (test : Comment → Bool) (cs : List Comment) (t : ℕ)
    → Precedes cs t
    → OlderThan t (newest_comment test cs)
unfolding newest_comment
newest_comment-OlderThan test [] t h = tt
newest_comment-OlderThan test (c ∷ cs) t h = ground (arith, newest_comment-OlderThan test cs t h.1)

later_comment-eq :
    (c : Comment) (d : Option Comment) → OlderThan c.created_at d → later_comment c d ≡ c
later_comment-eq c none h = refl
later_comment-eq c (some d) h = ground arith

-- A comment that is stored last is the newest one that passes the test, if it passes.
pub newest_comment-cons :
    (test : Comment → Bool) (c : Comment) (cs : List Comment)
    → Precedes cs c.created_at
    → newest_comment test (c ∷ cs) ≡ (if test c then some c else newest_comment test cs)
unfolding newest_comment
newest_comment-cons test c cs h = ground (
  arith,
  newest_comment-OlderThan test cs c.created_at h,
  later_comment-eq c (newest_comment test cs),
)
