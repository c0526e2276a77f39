-- ===== src/Comments/Recorded.antt =====
-- The comments that a batch stores, and their events (service/siteservice_comments.go).
use mathlib.Core.Path.{subst}
use flashpoint_submission_sy.Prelude.{
  ℕ, ◌<◌, ◌≡◌, ◌⊎◌, inl, inr, refl, ap, sym, ◌∙◌, Bool, true, false, Option, Result, String, List,
  [], ◌∷◌, ok, arith, if◌then◌else◌, All, All-map, Exists, ◌==◌, ==_iff, Bool-cases,
}
use flashpoint_submission_sy.Constants.Actions.{Action}
use flashpoint_submission_sy.Review.Tables.{Comment}
use flashpoint_submission_sy.Review.Row.{
  Submission, store_comment, freeze, refresh_cache, new_comment,
}
use flashpoint_submission_sy.Database.Session.{
  Session, CommentEvent, ◌>>◌, dal_call, modify_db, modify_submission, update_row,
  dal_store_comment, emit_submission_comment_event, dal_freeze_submission,
  dal_update_submission_cache_table,
}
use flashpoint_submission_sy.Comments.{Environment, post, open_pg}
use flashpoint_submission_sy.Comments.Effect.{bind_inv}
use flashpoint_submission_sy.Comments.Trace.{Trace, trace, Leads, Still-Leads, dal_call-Still}

-- The event of a comment on the submission.
abbrev pub Records : ℕ → Comment → CommentEvent → Type 0
Records sid c e =
    (e.submission_id ≡ sid)
    × (e.comment_id ≡ c.id)
    × (e.author_id ≡ c.author_id)
    × (e.action ≡ c.action)

-- Each comment of the row has an id below `n`, or an event.
abbrev pub IsRecorded : ℕ → List CommentEvent → Submission → Type 0
IsRecorded n events r = All (λ c. (c.id < n) ⊎ Exists (Records r.id c) events) r.comments

-- The session of PostgreSQL is open, and the rows are recorded.
abbrev pub IsOpen : ℕ → Trace → Type 0
IsOpen n t = (t.opened ≡ true) × All (IsRecorded n t.events) t.rows

-- The rows are recorded, and there are no events without the session.
abbrev pub IsTraced : ℕ → Trace → Type 0
IsTraced n t = ((t.opened ≡ true) ⊎ (t.events ≡ [])) × All (IsRecorded n t.events) t.rows

abbrev event : ℕ → ℕ → ℕ → Action → CommentEvent
event id uid sid a = record { author_id = uid; submission_id = sid; comment_id = id; action = a }

store_inv :
    (sid uid : ℕ) (a : Action) (m : Option String) (at : ℕ) (w v : Session) (id : ℕ)
    → dal_store_comment sid uid a m at w ≡ ok (id, v)
    → record (trace w) {
      rows = modify_submission sid (store_comment (new_comment id uid a m at)) w.db.submissions;
    }
      ≡ trace v
unfolding dal_store_comment
store_inv sid uid a m at w v id e =
    let (u, (v1, e1, e2)) = bind_inv dal_call _ w v id e in
    let still = dal_call-Still w v1 u e1 in ground arith

emit_inv :
    (x : CommentEvent) (v w : Session) (u : Unit {0})
    → emit_submission_comment_event x v ≡ ok (u, w)
    → record (trace v) { events = x ∷ v.events } ≡ trace w
unfolding emit_submission_comment_event
emit_inv x v w u e =
    let (u1, (v1, e1, e2)) = bind_inv dal_call _ v w u e in
    let still = dal_call-Still v v1 u1 e1 in ground arith

-- The trace after a comment is stored with its event.
abbrev posted : ℕ → ℕ → ℕ → Action → Option String → ℕ → Trace → Trace
posted id sid uid a m at t = record {
  rows = modify_submission sid (store_comment (new_comment id uid a m at)) t.rows;
  events = event id uid sid a ∷ t.events;
  opened = t.opened;
}

post_inv :
    (sid uid : ℕ) (a : Action) (m : Option String) (at : ℕ) (w w' : Session) (u : Unit {0})
    → post sid uid a m at w ≡ ok (u, w')
    → (id : ℕ) × (posted id sid uid a m at (trace w) ≡ trace w')
unfolding post
post_inv sid uid a m at w w' u e =
    let (id, (v, e1, e2)) = bind_inv (dal_store_comment sid uid a m at) _ w w' u e in
    let stored = store_inv sid uid a m at w v id e1 in
    let emitted = emit_inv _ v w' u e2 in
    (id, ap (λ (t : Trace). record t { events = event id uid sid a ∷ t.events }) stored ∙ emitted)

-- More events record no less.
IsRecorded-later :
    (n : ℕ) (e : CommentEvent) (events : List CommentEvent) (r : Submission)
    → IsRecorded n events r
    → IsRecorded n (e ∷ events) r
IsRecorded-later n e events r h =
    All-map _ _ r.comments (λ c k. elim k [ inl old ↦ inl old | inr x ↦ inr (inr x) ]) h

All-modify_submission :
    (P Q : Submission → Type 0) (sid : ℕ) (f : Submission → Submission) (rows : List Submission)
    → ((r : Submission) → P r → Q r)
    → ((r : Submission) → r.id ≡ sid → P r → Q (f r))
    → All P rows
    → All Q (modify_submission sid f rows)
unfolding modify_submission
All-modify_submission P Q sid f [] keeps changes h = tt
All-modify_submission P Q sid f (r ∷ rows) keeps changes h =
    let one : (b : Bool) → (r.id == sid) ≡ b → Q (if b then f r else r) = λ b e.
      elim (Bool-cases b) [
        | inl t ↦
            subst (λ x. Q (if x then f r else r)) (sym t)
              (changes r ((==_iff r.id sid).0 (e ∙ t)) h.0)
        | inr t ↦ subst (λ x. Q (if x then f r else r)) (sym t) (keeps r h.0)
      ] in
    (one (r.id == sid) refl, All-modify_submission P Q sid f rows keeps changes h.1)

-- A comment that is stored with its event.
pub post-IsOpen :
    (n sid uid : ℕ) (a : Action) (m : Option String) (at : ℕ)
    → Leads (post sid uid a m at) (IsOpen n) (IsOpen n)
unfolding store_comment
post-IsOpen n sid uid a m at w w' u e h =
    let (id, after) = post_inv sid uid a m at w w' u e in
    let x = event id uid sid a in
    let grown = IsRecorded-later n x w.events in
    subst (IsOpen n) after (
      h.0,
      All-modify_submission (IsRecorded n w.events) (IsRecorded n (x ∷ w.events)) sid _
          w.db.submissions grown (λ r same k. (inr (inl (sym same, refl, refl, refl)), grown r k))
          h.1,
    )

-- A change of a row that leaves its id and its comments alone.
update-IsOpen :
    (n sid : ℕ) (f : Submission → Submission)
    → ((events : List CommentEvent) (r : Submission)
        → IsRecorded n events r
        → IsRecorded n events (f r))
    → Leads (dal_call >> modify_db (update_row sid f)) (IsOpen n) (IsOpen n)
unfolding modify_db
update-IsOpen n sid f keeps w w' a e h =
    let (u, (v, e1, e2)) = bind_inv dal_call _ w w' a e in
    let opened = Still-Leads dal_call (IsOpen n) dal_call-Still w v u e1 h in
    let same : record (trace v) { rows = modify_submission sid f v.db.submissions } ≡ trace w' =
      ground arith in
    let P = IsRecorded n v.events in
    subst (IsOpen n) same (
      opened.0,
      All-modify_submission P P sid f v.db.submissions (λ r k. k) (λ r q. keeps v.events r)
          opened.1,
    )

pub freeze-IsOpen : (n sid : ℕ) → Leads (dal_freeze_submission sid) (IsOpen n) (IsOpen n)
unfolding dal_freeze_submission freeze
freeze-IsOpen n sid = update-IsOpen n sid freeze (λ events r h. h)

pub refresh-IsOpen :
    (n sid : ℕ) → Leads (dal_update_submission_cache_table sid) (IsOpen n) (IsOpen n)
unfolding dal_update_submission_cache_table refresh_cache
refresh-IsOpen n sid = update-IsOpen n sid refresh_cache (λ events r h. h)

-- The session is opened, if it is not yet.
abbrev opens : Session → Bool → Result (Unit {0} × Session)
opens w opened = elim opened [
  | true ↦ ok (tt, w)
  | false ↦ (dal_call >> λ v. ok (tt, record v { pg_open = true })) w
]

opens-trace :
    (opened : Bool) (w w' : Session) (a : Unit {0})
    → w.pg_open ≡ opened
    → opens w opened ≡ ok (a, w')
    → record (trace w) { opened = true } ≡ trace w'
opens-trace true w w' a o e = ground arith
opens-trace false w w' a o e =
    let (u, (v, e1, e2)) = bind_inv dal_call _ w w' a e in
    let still = dal_call-Still w v u e1 in ground arith

pub open_pg-IsOpen : (env : Environment) (n : ℕ) → Leads (open_pg env) (IsTraced n) (IsOpen n)
unfolding open_pg
open_pg-IsOpen env n w w' a e h = subst (IsOpen n) (opens-trace w.pg_open w w' a refl e) (refl, h.1)
