-- ===== src/Review/Cache/Meaning.antt =====
-- What `getUserCountWithEnabledAction` (database/caching.go) returns, without its partitions and ranks.
use mathlib.Core.Path.{subst}
use flashpoint_submission_sy.Prelude.{
  ℕ, ◌<◌, ◌≡◌, ◌≢◌, ◌⊎◌, ◌↔◌, inl, inr, refl, Bool, true, false, ◌&&◌, Option, none, some, List, [],
  ◌∷◌, arith, ◌==◌, All, All-map, Exists, Exists-All, Exists-here, Option-cases, Bool-cases,
}
use flashpoint_submission_sy.Constants.Actions.{Action, action_in}
use flashpoint_submission_sy.Review.Submission.{uid_in}
use flashpoint_submission_sy.Review.Tables.{
  Comment, SubmissionFile, after, later_comment, newest_comment, newest_file,
}
use flashpoint_submission_sy.Review.Cache.{
  Query, validator_id, is_counted, ranked_comment, of_last_version, prevails, is_enabled,
  get_user_count_with_enabled_action,
}
use flashpoint_submission_sy.Review.Cache.Replay.{uid_in-get_user_count_with_enabled_action}

-- `d` was stored before `e`: at an earlier time, or at the same time with a smaller id.
abbrev pub IsBefore : Comment → Comment → Type 0
IsBefore d e = (d.created_at < e.created_at) ⊎ (d.created_at ≡ e.created_at) × (d.id < e.id)

-- An active comment of the user, who is not the validator, with one of the actions.
abbrev pub Counts : List Action → ℕ → Comment → Type 0
Counts actions uid c =
    (c.author_id ≡ uid)
    × (uid ≢ validator_id)
    × (action_in c.action actions ≡ true)
    × (c.deleted ≡ false)

-- Where the query asks for the last version only, the comment is newer than the newest active file.
abbrev pub IsFresh : Query → Option SubmissionFile → Comment → Type 0
IsFresh q none c = q.only_from_last_file_version ≡ false
IsFresh q (some f) c = (q.only_from_last_file_version ≡ false) ⊎ (f.created_at < c.created_at)

-- A disabling comment of the user would come before `e`.
abbrev pub Yields : Query → ℕ → Comment → Comment → Type 0
Yields q uid e d = ¬ Counts q.disablers uid d ⊎ IsBefore d e

-- An enabling comment of the user that counts, with every disabling one before it.
abbrev pub Enables : Query → Option SubmissionFile → List Comment → ℕ → Comment → Type 0
Enables q file cs uid e = Counts q.enablers uid e × IsFresh q file e × All (Yields q uid e) cs

of_user : List Action → ℕ → Comment → Bool
of_user actions uid c = c.author_id == uid && is_counted actions c

Counts-iff :
    (actions : List Action) (uid : ℕ) (c : Comment)
    → (of_user actions uid c ≡ true) ↔ Counts actions uid c
unfolding of_user is_counted
Counts-iff actions uid c = ground arith

-- The comment does not come after `m`, if the test finds it.
abbrev IsCovered : (Comment → Bool) → Comment → Comment → Type 0
IsCovered test m c = (test c ≡ false) ⊎ (after c.created_at c.id m.created_at m.id ≡ false)

newest_comment-none :
    (test : Comment → Bool) (cs : List Comment)
    → newest_comment test cs ≡ none
    → All (λ c. test c ≡ false) cs
unfolding newest_comment
newest_comment-none test [] h = tt
newest_comment-none test (c ∷ cs) h = (ground arith, newest_comment-none test cs (ground arith))

IsCovered-later :
    (test : Comment → Bool) (m n c : Comment)
    → after n.created_at n.id m.created_at m.id ≡ false
    → IsCovered test n c
    → IsCovered test m c
IsCovered-later test m n c h k = ground arith

-- The row is of the table, the test finds it, and nothing that the test finds comes after it.
abbrev IsNewest : (Comment → Bool) → List Comment → Comment → Type 0
IsNewest test cs m = Exists (λ c. c ≡ m) cs × (test m ≡ true) × All (IsCovered test m) cs

IsNewest-of_later :
    (test : Comment → Bool) (c n : Comment) (cs : List Comment)
    → test c ≡ true
    → IsNewest test cs n
    → IsNewest test (c ∷ cs) (later_comment c (some n))
IsNewest-of_later test c n cs found h =
    elim (Bool-cases (after n.created_at n.id c.created_at c.id)) [
      | inl later ↦
          let same : n ≡ later_comment c (some n) = ground arith in
          subst (IsNewest test (c ∷ cs)) same (inr h.0, h.1, (inr (ground arith), h.2))
      | inr earlier ↦
          let same : c ≡ later_comment c (some n) = ground arith in
          let rest =
            All-map (IsCovered test n) (IsCovered test c) cs
              (λ d k. IsCovered-later test c n d earlier k) h.2 in
          subst (IsNewest test (c ∷ cs)) same (inl refl, found, (inr (ground arith), rest))
    ]

newest_comment-IsNewest :
    (test : Comment → Bool) (cs : List Comment) (m : Comment)
    → newest_comment test cs ≡ some m
    → IsNewest test cs m
unfolding newest_comment
newest_comment-IsNewest test [] m h = absurd (ground arith)
newest_comment-IsNewest test (c ∷ cs) m h = elim (Bool-cases (test c)) [
  | inr missed ↦
      let k = newest_comment-IsNewest test cs m (ground arith) in (inr k.0, k.1, (inl missed, k.2))
  | inl found ↦ elim (Option-cases (newest_comment test cs)) [
    | inl alone ↦
        let same : c ≡ m = ground arith in
        subst (IsNewest test (c ∷ cs)) same (
          inl refl,
          found,
          (
            inr (ground arith),
            All-map _ (IsCovered test c) cs (λ d k. inl k) (newest_comment-none test cs alone),
          ),
        )
    | inr (n, e) ↦
        let same : later_comment c (some n) ≡ m = ground arith in
        subst (IsNewest test (c ∷ cs)) same
          (IsNewest-of_later test c n cs found (newest_comment-IsNewest test cs n e))
  ]
]

-- The filter by version and the comparison, on the newest rows.
latest : Query → Option SubmissionFile → Option Comment → Option Comment → Bool
latest q file e d =
    prevails (of_last_version q.only_from_last_file_version file e)
      (of_last_version q.only_from_last_file_version file d)

latest-IsFresh :
    (q : Query) (file : Option SubmissionFile) (e : Comment) (d : Option Comment)
    → latest q file (some e) d ≡ true
    → IsFresh q file e
unfolding latest prevails of_last_version
latest-IsFresh q none e d h = ground arith
latest-IsFresh q (some f) e d h = ground arith

latest-IsBefore :
    (q : Query) (file : Option SubmissionFile) (e d c : Comment)
    → latest q file (some e) (some d) ≡ true
    → after c.created_at c.id d.created_at d.id ≡ false
    → IsBefore c e
unfolding latest prevails of_last_version
latest-IsBefore q none e d c h k = ground arith
latest-IsBefore q (some f) e d c h k = ground arith

undisputed :
    (q : Query) (file : Option SubmissionFile) (m e : Comment)
    → IsFresh q file e
    → after e.created_at e.id m.created_at m.id ≡ false
    → latest q file (some m) none ≡ true
unfolding latest prevails of_last_version
undisputed q none m e fresh k = ground arith
undisputed q (some f) m e fresh k = ground arith

disputed :
    (q : Query) (file : Option SubmissionFile) (m e d : Comment)
    → IsFresh q file e
    → after e.created_at e.id m.created_at m.id ≡ false
    → IsBefore d e
    → latest q file (some m) (some d) ≡ true
unfolding latest prevails of_last_version
disputed q none m e d fresh k b = ground arith
disputed q (some f) m e d fresh k b = ground arith

is_enabled-latest :
    (q : Query) (files : List SubmissionFile) (cs : List Comment) (uid : ℕ)
    → is_enabled q files cs uid
      ≡ latest q
          (newest_file files)
          (newest_comment (of_user q.enablers uid) cs)
          (newest_comment (of_user q.disablers uid) cs)
unfolding is_enabled ranked_comment of_user latest
is_enabled-latest q files cs uid = refl

module _ (q : Query) (file : Option SubmissionFile) (cs : List Comment) (uid : ℕ) where
  found_enabler :
      (e : Comment) (d : Option Comment)
      → newest_comment (of_user q.enablers uid) cs ≡ some e
      → latest q file (some e) d ≡ true
      → All (Yields q uid e) cs
      → Exists (Enables q file cs uid) cs
  found_enabler e d he h yields =
      let newest = newest_comment-IsNewest (of_user q.enablers uid) cs e he in
      Exists-here (Enables q file cs uid) e cs newest.0
        ((Counts-iff q.enablers uid e).0 newest.1, latest-IsFresh q file e d h, yields)

  uncounted-Yields : (e c : Comment) → of_user q.disablers uid c ≡ false → Yields q uid e c
  uncounted-Yields e c h = inl (λ k. let t = (Counts-iff q.disablers uid c).1 k in ground arith)

  covered-Yields :
      (e d c : Comment)
      → latest q file (some e) (some d) ≡ true
      → IsCovered (of_user q.disablers uid) d c
      → Yields q uid e c
  covered-Yields e d c h (inl missed) = uncounted-Yields e c missed
  covered-Yields e d c h (inr k) = inr (latest-IsBefore q file e d c h k)

  -- The enabling comment and the newest one.
  newest_enabler :
      (m : Comment)
      → newest_comment (of_user q.enablers uid) cs ≡ some m
      → Exists (Enables q file cs uid) cs
      → (e : Comment) × IsFresh q file e
        × All (Yields q uid e) cs
        × (after e.created_at e.id m.created_at m.id ≡ false)
  newest_enabler m hm x =
      let (e, enables, covered) =
        Exists-All _ _ cs x (newest_comment-IsNewest (of_user q.enablers uid) cs m hm).2 in
      let found = (Counts-iff q.enablers uid e).1 enables.0 in
      (e, enables.1, enables.2, ground arith)

  -- The newest disabling comment comes before any that enables.
  newest_disabler :
      (d e : Comment)
      → newest_comment (of_user q.disablers uid) cs ≡ some d
      → All (Yields q uid e) cs
      → IsBefore d e
  newest_disabler d e hd yields =
      let newest = newest_comment-IsNewest (of_user q.disablers uid) cs d hd in
      let counted = (Counts-iff q.disablers uid d).0 newest.1 in
      let (c, same, yielded) = Exists-All _ _ cs newest.0 yields in
      elim (subst (Yields q uid e) same yielded) [
        | inl uncounted ↦ absurd (uncounted counted)
        | inr before ↦ before
      ]

  latest-Enables :
      (e d : Option Comment)
      → newest_comment (of_user q.enablers uid) cs ≡ e
      → newest_comment (of_user q.disablers uid) cs ≡ d
      → (latest q file e d ≡ true) ↔ Exists (Enables q file cs uid) cs
  unfolding latest prevails of_last_version
  latest-Enables none d he hd = (
    λ h. absurd (ground arith),
    λ x.
        let (e, enables, missed) =
          Exists-All _ _ cs x (newest_comment-none (of_user q.enablers uid) cs he) in
        let found = (Counts-iff q.enablers uid e).1 enables.0 in ground arith,
  )
  latest-Enables (some m) none he hd = (
    λ h.
        found_enabler m none he h (
          All-map _ _ cs (uncounted-Yields m)
            (newest_comment-none (of_user q.disablers uid) cs hd)),
    λ x. let (e, fresh, yields, k) = newest_enabler m he x in undisputed q file m e fresh k,
  )
  latest-Enables (some m) (some d) he hd = (
    λ h. found_enabler m (some d) he h (
        All-map _ _ cs (λ c k. covered-Yields m d c h k)
          (newest_comment-IsNewest (of_user q.disablers uid) cs d hd).2),
    λ x.
        let (e, fresh, yields, k) = newest_enabler m he x in
        disputed q file m e d fresh k (newest_disabler d e hd yields),
  )

-- A query returns exactly the users, but for the validator, who have an active comment with an enabling
-- action that comes after each active comment of theirs with a disabling action and that, where the
-- query asks for the last version only, is newer than the newest active file; where there is no active
-- file, such a query returns nobody.
pub get_user_count_with_enabled_action_iff :
    (q : Query) (files : List SubmissionFile) (cs : List Comment) (uid : ℕ)
    → (uid_in uid (get_user_count_with_enabled_action q files cs) ≡ true)
      ↔ Exists (Enables q (newest_file files) cs uid) cs
get_user_count_with_enabled_action_iff q files cs uid =
    rw (uid_in-get_user_count_with_enabled_action q files cs uid, is_enabled-latest q files cs uid)
      (latest-Enables q (newest_file files) cs uid _ _ refl refl)
