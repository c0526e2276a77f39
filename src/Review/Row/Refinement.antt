-- ===== src/Review/Row/Refinement.antt =====
-- What a review action and an upload do to what the users hold: the writers and the abstract view.
use flashpoint_submission_sy.Prelude.{
  ℕ, ◌<◌, ◌≤◌, ◌≡◌, ◌≢◌, refl, Bool, false, ◌&&◌, not, Option, none, some, List, [], ◌∷◌, arith,
  ◌==◌, if◌then◌else◌, ◌∙◌, String, ap, Option-cases, inl, inr,
}
use flashpoint_submission_sy.Constants.Actions.{
  Action, approve, verify, unassign_testing, unassign_verification, system, upload,
}
use flashpoint_submission_sy.Review.Tables.{Comment, SubmissionFile, newest_file}
use flashpoint_submission_sy.Review.Cache.{
  validator_id, Query, approved_query, verified_query, assigned_testing_query,
  assigned_verification_query, requested_changes_query,
}
use flashpoint_submission_sy.Review.Cache.Latest.{Precedes}
use flashpoint_submission_sy.Review.Cache.Replay.{
  FilePrecedes, is_enabled_outdated, is_enabled_unversioned,
}
use flashpoint_submission_sy.Review.Standing.{Standing, standing, act, standing-cons}
use flashpoint_submission_sy.Review.Row.{
  Submission, Stamps, BotComment, uploaded, store_comment, store_submission_file, refresh_cache,
  freeze, unassign, autofreeze, reviewed, system_id, new_comment, update_autofreeze,
}

-- What a user holds on a submission.
abbrev pub holds : Submission → ℕ → Standing
holds r u = standing r.files r.comments u

-- The submission has an active file, and the time is later than all that is stored.
pub record Ready (r : Submission) (t : ℕ) : Type 0 where
  pub comments_before : Precedes r.comments t
  pub file_before : FilePrecedes r.files t
  pub has_file : newest_file r.files ≢ none

-- The clock moves on while the comments of one action are stored.
pub record InOrder (st : Stamps) : Type 0 where
  pub first : st.at0 < st.at1
  pub second : st.at1 < st.at2

-- An action of one user, as it acts on what another holds; the validator holds nothing.
abbrev pub speak : ℕ → Action → ℕ → Standing → Standing
speak uid a u s = if uid == u && not (uid == validator_id) then act a s else s

-- A review action on what a user holds: a verdict gives up the assignment that it rests on.
abbrev pub after_review : ℕ → Action → ℕ → Standing → Standing
after_review uid approve u s = speak uid unassign_testing u (speak uid approve u s)
after_review uid verify u s = speak uid unassign_verification u (speak uid verify u s)
after_review uid a u s = speak uid a u s

Precedes-mono : (cs : List Comment) (t t' : ℕ) → t ≤ t' → Precedes cs t → Precedes cs t'
Precedes-mono [] t t' h p = tt
Precedes-mono (c ∷ cs) t t' h p = (omega arith, Precedes-mono cs t t' h p.1)

store_comment-Ready :
    (c : Comment) (r : Submission) (t : ℕ)
    → Ready r c.created_at
    → c.created_at < t
    → Ready (store_comment c r) t
unfolding store_comment
store_comment-Ready c r t ready lt = record {
  comments_before =
      (lt, Precedes-mono r.comments c.created_at t (omega arith) ready.comments_before);
  file_before = λ f e. omega (arith, ready.file_before f e);
  has_file = ready.has_file;
}

-- A stored comment acts on what its author holds.
pub store_comment-holds :
    (cid uid : ℕ) (a : Action) (message : Option String) (t : ℕ) (r : Submission) (u : ℕ)
    → Ready r t
    → holds (store_comment (new_comment cid uid a message t) r) u ≡ speak uid a u (holds r u)
unfolding store_comment
store_comment-holds cid uid a message t r u ready =
    let c = new_comment cid uid a message t in
    ground (
      arith,
      standing-cons r.files c r.comments u ready.comments_before ready.file_before ready.has_file,
    )

autofreeze-holds :
    (a : Action) (should : Bool) (st : Stamps) (r : Submission) (u : ℕ)
    → Ready r st.at2
    → holds (autofreeze a should st r) u ≡ holds r u
unfolding autofreeze freeze store_comment
autofreeze-holds a should st r u ready =
    let c = new_comment st.id2 system_id system st.notice st.at2 in
    ground (
      arith,
      standing-cons r.files c r.comments u ready.comments_before ready.file_before ready.has_file,
    )

-- The row after the comment of the action, and after the comment that follows a verdict.
module _ (uid : ℕ) (message : Option String) (st : Stamps) (r : Submission) (ready : Ready r st.at0)
    (order : InOrder st) where
  abbrev commented : Action → Submission
  commented a = store_comment (new_comment st.id0 uid a message st.at0) r

  commented-Ready : (a : Action) (t : ℕ) → st.at0 < t → Ready (commented a) t
  commented-Ready a t h = store_comment-Ready (new_comment st.id0 uid a message st.at0) r t ready h

  abbrev followed : Action → Action → Submission
  followed a b = store_comment (new_comment st.id1 uid b none st.at1) (commented a)

  followed-Ready : (a b : Action) → Ready (followed a b) st.at2
  followed-Ready a b =
      store_comment-Ready (new_comment st.id1 uid b none st.at1) (commented a) st.at2
        (commented-Ready a st.at1 order.first) order.second

  followed-holds :
      (a b : Action) (u : ℕ) → holds (followed a b) u ≡ speak uid b u (speak uid a u (holds r u))
  followed-holds a b u =
      store_comment-holds st.id1 uid b none st.at1 (commented a) u
        (commented-Ready a st.at1 order.first)
      ∙ ap (speak uid b u) (store_comment-holds st.id0 uid a message st.at0 r u ready)

-- On a submission with an active file, with times that ascend and are later than all that is stored, a
-- review action changes what its author holds as the abstract view says, and nothing of others.
pub reviewed-holds :
    (uid : ℕ) (a : Action) (message : Option String) (should : Bool) (st : Stamps) (r : Submission)
    (u : ℕ)
    → Ready r st.at0
    → InOrder st
    → holds (reviewed uid a message should st r) u ≡ after_review uid a u (holds r u)
unfolding reviewed refresh_cache unassign
reviewed-holds uid approve message should st r u ready order =
    autofreeze-holds approve should st
      (followed uid message st r ready order approve unassign_testing) u
      (followed-Ready uid message st r ready order approve unassign_testing)
    ∙ followed-holds uid message st r ready order approve unassign_testing u
reviewed-holds uid verify message should st r u ready order =
    autofreeze-holds verify should st
      (followed uid message st r ready order verify unassign_verification) u
      (followed-Ready uid message st r ready order verify unassign_verification)
    ∙ followed-holds uid message st r ready order verify unassign_verification u
reviewed-holds uid a message should st r u ready order =
    autofreeze-holds a should st (commented uid message st r ready order a) u
      (commented-Ready uid message st r ready order a st.at2 (omega (arith, order)))
    ∙ store_comment-holds st.id0 uid a message st.at0 r u ready

-- A new version of the submission, at a time later than all that is stored.
pub record IsNewVersion (f : SubmissionFile) (r : Submission) : Type 0 where
  pub active : f.deleted ≡ false
  pub after_comments : Precedes r.comments f.created_at
  pub after_file : FilePrecedes r.files f.created_at

pub newest_file-cons :
    (f : SubmissionFile) (r : Submission) → IsNewVersion f r → newest_file (f ∷ r.files) ≡ some f
unfolding newest_file
newest_file-cons f r h = elim (Option-cases (newest_file r.files)) [
  | inl e ↦ ground arith
  | inr (g, e) ↦ ground (arith, h.after_file g e)
]

-- A new version withdraws every approval and verification, and leaves the rest as it was.
pub store_submission_file-holds :
    (f : SubmissionFile) (r : Submission) (u : ℕ)
    → IsNewVersion f r
    → holds (store_submission_file f r) u
      ≡ record (holds r u) { approved = false; verified = false }
unfolding store_submission_file standing
store_submission_file-holds f r u h =
    let newest = newest_file-cons f r h in
    let old = λ (q : Query). is_enabled_outdated q (f ∷ r.files) f r.comments u in
    let same = λ (q : Query). is_enabled_unversioned q (f ∷ r.files) r.files r.comments u in
    ground (
      arith,
      old approved_query refl newest h.after_comments,
      old verified_query refl newest h.after_comments,
      same assigned_testing_query refl,
      same assigned_verification_query refl,
      same requested_changes_query refl,
    )

store_submission_file-Ready :
    (f : SubmissionFile) (r : Submission) (t : ℕ)
    → IsNewVersion f r
    → f.created_at < t
    → Ready (store_submission_file f r) t
unfolding store_submission_file
store_submission_file-Ready f r t h lt = record {
  comments_before = Precedes-mono r.comments f.created_at t (omega arith) h.after_comments;
  file_before = λ g e. ground (arith, newest_file-cons f r h);
  has_file = λ e. cc (newest_file-cons f r h);
}

validator_silent : (a : Action) (u : ℕ) (s : Standing) → speak validator_id a u s ≡ s
validator_silent a u s = ground arith

-- An active new version, with the comments of the upload and of the validator at times that ascend and
-- are later than all that is stored, withdraws every approval and verification and its author's
-- earlier requests for changes, and nothing else.
pub uploaded-holds :
    (f : SubmissionFile) (cid t : ℕ) (bot : BotComment) (r : Submission) (u : ℕ)
    → IsNewVersion f r
    → f.created_at < t
    → t < bot.at
    → holds (uploaded f cid t bot r) u
      ≡ speak f.submitter_id upload u (record (holds r u) { approved = false; verified = false })
unfolding uploaded refresh_cache update_autofreeze
uploaded-holds f cid t bot r u version first second =
    let r1 = store_submission_file f r in
    let ready = store_submission_file-Ready f r t version first in
    let c = new_comment cid f.submitter_id upload none t in
    store_comment-holds bot.id validator_id bot.verdict bot.message bot.at (store_comment c r1) u
      (store_comment-Ready c r1 bot.at ready second)
    ∙ validator_silent bot.verdict u _
    ∙ store_comment-holds cid f.submitter_id upload none t r1 u ready
    ∙ ap (speak f.submitter_id upload u) (store_submission_file-holds f r u version)
