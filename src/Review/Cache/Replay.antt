-- ===== src/Review/Cache/Replay.antt =====
-- The SQL of `getUserCountWithEnabledAction` as a replay of the comments: what each comment that is
-- stored does to the users that the query returns.
use flashpoint_submission_sy.Prelude.{
  ℕ, ◌<◌, ◌≡◌, refl, Bool, true, false, ◌&&◌, ◌||◌, Option, none, some, List, [], ◌∷◌, arith, ◌==◌,
  if◌then◌else◌, keep,
}
use flashpoint_submission_sy.Constants.Actions.{Action}
use flashpoint_submission_sy.Review.Submission.{uid_in}
use flashpoint_submission_sy.Review.Tables.{Comment, SubmissionFile, newest_comment, newest_file}
use flashpoint_submission_sy.Review.Cache.{
  Query, is_counted, ranked_comment, of_last_version, prevails, is_enabled, authors,
  get_user_count_with_enabled_action,
}
use flashpoint_submission_sy.Review.Cache.Latest.{
  Precedes, OlderThan, newest_comment-OlderThan, newest_comment-cons,
}

pub uid_in_nil : (uid : ℕ) → uid_in uid [] ≡ false
unfolding uid_in
uid_in_nil uid = refl

pub uid_in-cons : (uid a : ℕ) (ids : List ℕ) → uid_in uid (a ∷ ids) ≡ (uid == a || uid_in uid ids)
unfolding uid_in
uid_in-cons uid a ids = refl

-- A user with no comment in the partitions has no ranked comment.
ranked_comment-none :
    (actions : List Action) (uid : ℕ) (cs : List Comment)
    → uid_in uid (authors actions cs) ≡ false
    → ranked_comment actions uid cs ≡ none
unfolding ranked_comment newest_comment authors
ranked_comment-none actions uid [] h = refl
ranked_comment-none actions uid (c ∷ cs) h =
    ground
      (arith, ranked_comment-none actions uid cs, uid_in-cons uid c.author_id (authors actions cs))

pub uid_in-keep :
    (uid : ℕ) (p : ℕ → Bool) (ids : List ℕ) → uid_in uid (keep p ids) ≡ (p uid && uid_in uid ids)
uid_in-keep uid p [] = ground (arith, uid_in_nil uid)
uid_in-keep uid p (a ∷ ids) =
    ground (arith, uid_in-keep uid p ids, uid_in-cons uid a ids, uid_in-cons uid a (keep p ids))

is_enabled-authors :
    (q : Query) (files : List SubmissionFile) (cs : List Comment) (uid : ℕ)
    → uid_in uid (authors q.enablers cs) ≡ false
    → is_enabled q files cs uid ≡ false
unfolding is_enabled
is_enabled-authors q files cs uid h = ground (arith, ranked_comment-none q.enablers uid cs h)

-- The column of a query holds the users that the query returns, and no others.
pub uid_in-get_user_count_with_enabled_action :
    (q : Query) (files : List SubmissionFile) (cs : List Comment) (uid : ℕ)
    → uid_in uid (get_user_count_with_enabled_action q files cs) ≡ is_enabled q files cs uid
unfolding get_user_count_with_enabled_action
uid_in-get_user_count_with_enabled_action q files cs uid = ground (
  arith,
  uid_in-keep uid (is_enabled q files cs) (authors q.enablers cs),
  is_enabled-authors q files cs uid,
)

-- Is the newest active file older than the time, if there is one?
abbrev pub FilePrecedes : List SubmissionFile → ℕ → Type 0
FilePrecedes files t = (f : SubmissionFile) → newest_file files ≡ some f → f.created_at < t

-- Does the comment count for the user among these actions?
abbrev pub counts_for : List Action → Comment → ℕ → Bool
counts_for actions c uid = c.author_id == uid && is_counted actions c

-- The replay of one comment by the rule of a query.
abbrev pub replay_comment : Query → Comment → ℕ → Bool → Bool
replay_comment q c uid before =
    if counts_for q.enablers c uid
    then true
    else if counts_for q.disablers c uid
    then false
    else before

ranked_comment-cons :
    (actions : List Action) (uid : ℕ) (c : Comment) (cs : List Comment)
    → Precedes cs c.created_at
    → ranked_comment actions uid (c ∷ cs)
      ≡ (if counts_for actions c uid then some c else ranked_comment actions uid cs)
unfolding ranked_comment
ranked_comment-cons actions uid c cs h =
    newest_comment-cons (λ d. d.author_id == uid && is_counted actions d) c cs h

ranked_comment-OlderThan :
    (actions : List Action) (uid t : ℕ) (cs : List Comment)
    → Precedes cs t
    → OlderThan t (ranked_comment actions uid cs)
unfolding ranked_comment
ranked_comment-OlderThan actions uid t cs h =
    newest_comment-OlderThan (λ d. d.author_id == uid && is_counted actions d) cs t h

-- With a comment `c` that is newer than all else, on the ranked comments `e` and `d` of a user.
prevails-cons :
    (only : Bool) (file : Option SubmissionFile) (c : Comment) (e d : Option Comment)
    → OlderThan c.created_at e
    → OlderThan c.created_at d
    → ((f : SubmissionFile) → file ≡ some f → f.created_at < c.created_at)
    → (file ≡ none → only ≡ false)
    → (prevails (of_last_version only file (some c)) (of_last_version only file d) ≡ true)
      × (prevails (of_last_version only file e) (of_last_version only file (some c)) ≡ false)
unfolding prevails of_last_version
prevails-cons only none c e d he hd newer exists = ground arith
prevails-cons only (some f) c e d he hd newer exists = ground (arith, newer f refl)

-- Of a comment that is newer than all that is stored and does not count both as an enabler and as a
-- disabler, under a query of the last version only if there is a file: its author enters by an
-- enabling action and leaves by a disabling one, and no one else moves.
pub is_enabled-cons :
    (q : Query) (files : List SubmissionFile) (c : Comment) (cs : List Comment) (uid : ℕ)
    → Precedes cs c.created_at
    → FilePrecedes files c.created_at
    → (newest_file files ≡ none → q.only_from_last_file_version ≡ false)
    → (counts_for q.enablers c uid && counts_for q.disablers c uid) ≡ false
    → is_enabled q files (c ∷ cs) uid ≡ replay_comment q c uid (is_enabled q files cs uid)
unfolding is_enabled
is_enabled-cons q files c cs uid older newer exists disjoint = ground (
  arith,
  ranked_comment-cons q.enablers uid c cs older,
  ranked_comment-cons q.disablers uid c cs older,
  prevails-cons q.only_from_last_file_version (newest_file files) c
      (ranked_comment q.enablers uid cs) (ranked_comment q.disablers uid cs)
      (ranked_comment-OlderThan q.enablers uid c.created_at cs older)
      (ranked_comment-OlderThan q.disablers uid c.created_at cs older) newer exists,
)

prevails_outdated :
    (f : SubmissionFile) (e d : Option Comment)
    → OlderThan f.created_at e
    → prevails (of_last_version true (some f) e) d ≡ false
unfolding prevails of_last_version
prevails_outdated f none d h = refl
prevails_outdated f (some c) d h = ground arith

-- Under a query of the last version, if every comment is older than the newest file, the query returns
-- nobody.
pub is_enabled_outdated :
    (q : Query) (files : List SubmissionFile) (f : SubmissionFile) (cs : List Comment) (uid : ℕ)
    → q.only_from_last_file_version ≡ true
    → newest_file files ≡ some f
    → Precedes cs f.created_at
    → is_enabled q files cs uid ≡ false
unfolding is_enabled
is_enabled_outdated q files f cs uid only newest older =
    rw (only, newest)
      (prevails_outdated f (ranked_comment q.enablers uid cs) _
        (ranked_comment-OlderThan q.enablers uid f.created_at cs older))

-- Under any other query the files do not matter.
pub is_enabled_unversioned :
    (q : Query) (files files' : List SubmissionFile) (cs : List Comment) (uid : ℕ)
    → q.only_from_last_file_version ≡ false
    → is_enabled q files cs uid ≡ is_enabled q files' cs uid
unfolding is_enabled of_last_version
is_enabled_unversioned q files files' cs uid only = ground arith
