-- ===== src/Review/Standing.antt =====
-- The abstract view of the review: what one user holds on one submission, and what each comment of
-- that user does to it. The cache columns refine it.
use flashpoint_submission_sy.Prelude.{
  ℕ, ◌≡◌, ◌≢◌, Bool, true, false, ◌&&◌, not, none, List, ◌∷◌, arith, ◌==◌, if◌then◌else◌, ◌∙◌,
}
use flashpoint_submission_sy.Constants.Actions.{
  Action, approve, request_changes, verify, upload, assign_testing, unassign_testing,
  assign_verification, unassign_verification, action_in,
}
use flashpoint_submission_sy.Review.Tables.{Comment, SubmissionFile, newest_file}
use flashpoint_submission_sy.Review.Cache.{
  Query, validator_id, is_counted, is_enabled, assigned_testing_query, assigned_verification_query,
  requested_changes_query, approved_query, verified_query,
}
use flashpoint_submission_sy.Review.Cache.Latest.{Precedes}
use flashpoint_submission_sy.Review.Cache.Replay.{
  FilePrecedes, counts_for, replay_comment, is_enabled-cons,
}

pub record Standing : Type 0 where
  pub testing : Bool
  pub verification : Bool
  pub requested : Bool
  pub approved : Bool
  pub verified : Bool

-- The five queries at one user.
unfoldable pub standing : List SubmissionFile → List Comment → ℕ → Standing
standing files comments uid = record {
  testing = is_enabled assigned_testing_query files comments uid;
  verification = is_enabled assigned_verification_query files comments uid;
  requested = is_enabled requested_changes_query files comments uid;
  approved = is_enabled approved_query files comments uid;
  verified = is_enabled verified_query files comments uid;
}

-- The effect of a comment on what its author holds.
abbrev pub act : Action → Standing → Standing
act assign_testing s = record s { testing = true }
act unassign_testing s = record s { testing = false }
act assign_verification s = record s { verification = true }
act unassign_verification s = record s { verification = false }
act request_changes s = record s { requested = true; approved = false; verified = false }
act approve s = record s { requested = false; approved = true }
act verify s = record s { requested = false; verified = true }
act upload s = record s { requested = false }
act _ s = s

-- Is the comment one that the queries read, by this user?
abbrev pub speaks_for : Comment → ℕ → Bool
speaks_for c uid = c.author_id == uid && not (c.author_id == validator_id) && not c.deleted

-- The rule of a query on an action of a user, `speaks` or not.
abbrev obey : Query → Action → Bool → Bool → Bool
obey q a speaks before =
    if speaks && action_in a q.enablers
    then true
    else if speaks && action_in a q.disablers
    then false
    else before

abbrev IsDisjoint : Query → Action → Type 0
IsDisjoint q a = (action_in a q.enablers && action_in a q.disablers) ≡ false

-- The rules of the five queries together are `act`.
obey-act :
    (a : Action) (speaks : Bool) (s : Standing)
    → let t : Standing = record {
      testing = obey assigned_testing_query a speaks s.testing;
      verification = obey assigned_verification_query a speaks s.verification;
      requested = obey requested_changes_query a speaks s.requested;
      approved = obey approved_query a speaks s.approved;
      verified = obey verified_query a speaks s.verified;
    } in
      t ≡ (if speaks then act a s else s)
obey-act assign_testing speaks s = ground arith
obey-act _ speaks s = ground arith

queries-IsDisjoint :
    (a : Action)
    → IsDisjoint assigned_testing_query a
      × IsDisjoint assigned_verification_query a
      × IsDisjoint requested_changes_query a
      × IsDisjoint approved_query a
      × IsDisjoint verified_query a
queries-IsDisjoint assign_testing = ground arith
queries-IsDisjoint _ = ground arith

module _ (files : List SubmissionFile) (c : Comment) (cs : List Comment) (uid : ℕ)
    (older : Precedes cs c.created_at) (newer : FilePrecedes files c.created_at)
    (exists : newest_file files ≢ none) where
  replay_comment-obey :
      (q : Query) (before : Bool)
      → replay_comment q c uid before ≡ obey q c.action (speaks_for c uid) before
  unfolding is_counted
  replay_comment-obey q before = ground arith

  counts_disjoint :
      (q : Query)
      → IsDisjoint q c.action
      → (counts_for q.enablers c uid && counts_for q.disablers c uid) ≡ false
  unfolding is_counted
  counts_disjoint q h = ground arith

  is_enabled-obey :
      (q : Query)
      → IsDisjoint q c.action
      → is_enabled q files (c ∷ cs) uid
        ≡ obey q c.action (speaks_for c uid) (is_enabled q files cs uid)
  is_enabled-obey q h =
      is_enabled-cons q files c cs uid older newer (λ e. absurd (exists e)) (counts_disjoint q h)
      ∙ replay_comment-obey q (is_enabled q files cs uid)

-- On a submission with an active file, a comment that is newer than all that is stored acts on what
-- its author holds, and on what nobody else holds.
pub standing-cons :
    (files : List SubmissionFile) (c : Comment) (cs : List Comment) (uid : ℕ)
    → Precedes cs c.created_at
    → FilePrecedes files c.created_at
    → newest_file files ≢ none
    → standing files (c ∷ cs) uid
      ≡ (if speaks_for c uid then act c.action (standing files cs uid) else standing files cs uid)
unfolding standing
standing-cons files c cs uid older newer exists =
    let d = queries-IsDisjoint c.action in
    rw
      (
        is_enabled-obey files c cs uid older newer exists assigned_testing_query d.0,
        is_enabled-obey files c cs uid older newer exists assigned_verification_query d.1,
        is_enabled-obey files c cs uid older newer exists requested_changes_query d.2,
        is_enabled-obey files c cs uid older newer exists approved_query d.3,
        is_enabled-obey files c cs uid older newer exists verified_query d.4,
      )
      (obey-act c.action (speaks_for c uid) (standing files cs uid))
