-- ===== src/Comments/Atomicity.antt =====
-- What a request leaves in the databases.
use flashpoint_submission_sy.Prelude.{
  ℕ, ◌≡◌, ◌≢◌, ◌⊎◌, inl, inr, refl, Bool, none, List, [], ◌∷◌, ◌++◌, ok, err, Result, arith,
  if◌then◌else◌,
}
use flashpoint_submission_sy.Database.Session.{Session}
use flashpoint_submission_sy.Comments.{Environment}
use flashpoint_submission_sy.Comments.Receive.{
  CommentForm, Store, Outcome, receive_comments, process_batch, finish, commit, commit_mysql, begin,
}

-- The store with the events of a batch, and with its submissions too.
abbrev pub with_events : Store → Session → Store
with_events s w = record s { events = if w.pg_open then w.events ++ s.events else s.events }

abbrev pub with_batch : Store → Session → Store
with_batch s w = record (with_events s w) { db = w.db }

-- Everything of a batch is stored; or its events alone, or nothing, and then there is an error.
abbrev pub IsOrdered : Store → Session → Outcome → Type 0
IsOrdered s w o =
    (o.store ≡ with_batch s w) ⊎ (o.failure ≢ none) × ((o.store ≡ with_events s w) ⊎ (o.store ≡ s))

commit-IsOrdered : (env : Environment) (s : Store) (w : Session) → IsOrdered s w (commit env s w)
unfolding commit commit_mysql
commit-IsOrdered env s w = ground arith

finish-IsOrdered :
    (env : Environment) (s : Store) (o : Result (Unit {0} × Session))
    → (finish env s o).failure ≢ none × ((finish env s o).store ≡ s)
      ⊎ ((w : Session) × (o ≡ ok (tt, w)) × IsOrdered s w (finish env s o))
unfolding finish
finish-IsOrdered env s (ok (u, w)) = inr (w, refl, commit-IsOrdered env s w)
finish-IsOrdered env s (err e) = inl (λ p. cc, refl)

-- The request leaves the store as it was, with an error, or its batch ran to the end.
abbrev pub IsCommitted :
    Environment → List Bool → ℕ → List ℕ → CommentForm → Store → Outcome → Type 0
IsCommitted env faults uid sids form s o =
    (o.failure ≢ none) × (o.store ≡ s)
    ⊎ ((w : Session) × (process_batch env uid sids form (begin s faults) ≡ ok (tt, w))
        × IsOrdered s w o)

pub receive_comments-IsCommitted :
    (env : Environment) (faults : List Bool) (uid : ℕ) (sids : List ℕ) (form : CommentForm)
    (s : Store)
    → IsCommitted env faults uid sids form s (receive_comments env faults uid sids form s)
unfolding receive_comments
receive_comments-IsCommitted env faults uid [] form s = inl (λ e. cc, refl)
receive_comments-IsCommitted env faults uid (sid ∷ sids) form s =
    finish-IsOrdered env s (process_batch env uid (sid ∷ sids) form (begin s faults))
