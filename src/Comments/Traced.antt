-- ===== src/Comments/Traced.antt =====
-- The loop over a batch (service/siteservice_comments.go), and the events of its comments.
use flashpoint_submission_sy.Prelude.{
  ℕ, inl, Bool, Option, some, none, String, List, [], ◌∷◌, Error, arith,
}
use flashpoint_submission_sy.Constants.Actions.{Action, approve, verify}
use flashpoint_submission_sy.Review.Submission.{ExtendedSubmission}
use flashpoint_submission_sy.Database.Session.{Tx, ◌>>=◌, raise}
use flashpoint_submission_sy.Comments.{
  Environment, skip, post_unassign, post_autofreeze, accept, settle, review_one, review_each,
}
use flashpoint_submission_sy.Comments.Trace.{
  Leads, Still, Leads-bind, Still-Leads, when-Still, when-Leads, now-Still,
  get_discord_user_roles-Still, create_notification-Still, skip-Still,
  create_freeze_notification-Still, subscribe-Still, final_message-Still,
}
use flashpoint_submission_sy.Comments.Recorded.{
  IsOpen, IsTraced, post-IsOpen, freeze-IsOpen, refresh-IsOpen, open_pg-IsOpen,
}

module _ (env : Environment) (n : ℕ) where
  then-IsOpen :
      {A B : Type 0} (m : Tx A) (f : A → Tx B)
      → Leads m (IsOpen n) (IsOpen n)
      → ((a : A) → Leads (f a) (IsOpen n) (IsOpen n))
      → Leads (m >>= f) (IsOpen n) (IsOpen n)
  then-IsOpen m f = Leads-bind m f (IsOpen n) (IsOpen n) (IsOpen n)

  after-Still :
      {A B : Type 0} (m : Tx A) (f : A → Tx B)
      → Still m
      → ((a : A) → Leads (f a) (IsOpen n) (IsOpen n))
      → Leads (m >>= f) (IsOpen n) (IsOpen n)
  after-Still m f h = then-IsOpen m f (Still-Leads m (IsOpen n) h)

  post_unassign-IsOpen :
      (uid sid : ℕ) (a : Action) → Leads (post_unassign env uid a sid) (IsOpen n) (IsOpen n)
  unfolding post_unassign
  post_unassign-IsOpen uid sid approve =
      after-Still _ _ (now-Still env.clock) (λ t. post-IsOpen n sid uid _ _ _)
  post_unassign-IsOpen uid sid verify =
      after-Still _ _ (now-Still env.clock) (λ t. post-IsOpen n sid uid _ _ _)
  post_unassign-IsOpen uid sid _ = Still-Leads skip (IsOpen n) skip-Still

  post_autofreeze-IsOpen :
      (uid : ℕ) (a : Action) (s : ExtendedSubmission)
      → Leads (post_autofreeze env uid a s) (IsOpen n) (IsOpen n)
  unfolding post_autofreeze
  post_autofreeze-IsOpen uid a s = when-Leads _ _ (IsOpen n) (
      then-IsOpen _ _
        (then-IsOpen _ _
          (then-IsOpen _ _ (freeze-IsOpen n s.submission_id)
            (λ u. Still-Leads _ (IsOpen n) (create_freeze_notification-Still _ _ _)))
          (λ u. Still-Leads _ (IsOpen n) (now-Still env.clock)))
        (λ t. post-IsOpen n s.submission_id _ _ _ _))

  accept-IsTraced :
      (uid : ℕ) (a : Action) (message : Option String) (s : ExtendedSubmission)
      → Leads (accept env uid a message s) (IsTraced n) (IsOpen n)
  unfolding accept
  accept-IsTraced uid a message s =
      Leads-bind _ _ (IsTraced n) (IsTraced n) (IsOpen n)
        (Still-Leads _ (IsTraced n) (final_message-Still env a message s))
        (λ m.
          Leads-bind _ _ (IsTraced n) (IsOpen n) (IsOpen n)
            (Leads-bind _ _ (IsTraced n) (IsOpen n) (IsOpen n) (open_pg-IsOpen env n)
              (λ u. Still-Leads _ (IsOpen n) (now-Still env.clock)))
            (λ t.
              then-IsOpen _ _
                (then-IsOpen _ _
                  (then-IsOpen _ _
                    (then-IsOpen _ _
                      (then-IsOpen _ _
                        (Still-Leads _ (IsOpen n)
                          (when-Still _ _ (subscribe-Still env uid s.submission_id)))
                        (λ u. post-IsOpen n s.submission_id uid _ _ _))
                      (λ u. post_unassign-IsOpen uid s.submission_id a))
                    (λ u.
                      Still-Leads _ (IsOpen n) (create_notification-Still uid s.submission_id a)))
                  (λ u. post_autofreeze-IsOpen uid a s))
                (λ u. refresh-IsOpen n s.submission_id)))

  opened-IsTraced :
      {A : Type 0} (m : Tx A) → Leads m (IsTraced n) (IsOpen n) → Leads m (IsTraced n) (IsTraced n)
  opened-IsTraced m h w w' a e p = let q = h w w' a e p in (inl q.0, q.1)

  raise-IsTraced : (x : Error) → Leads (raise {A = Unit {0}} x) (IsTraced n) (IsTraced n)
  unfolding raise
  raise-IsTraced x w w' a e p = absurd (ground arith)

  settle-IsTraced :
      (uid : ℕ) (a : Action) (message : Option String) (ignore : Bool) (s : ExtendedSubmission)
      (verdict : Option Error)
      → Leads (settle env uid a message ignore s verdict) (IsTraced n) (IsTraced n)
  unfolding settle
  settle-IsTraced uid a message ignore s none = opened-IsTraced _ (accept-IsTraced uid a message s)
  settle-IsTraced uid a message ignore s (some x) = when-Leads _ _ (IsTraced n) (raise-IsTraced x)

  review_one-IsTraced :
      (uid : ℕ) (a : Action) (message : Option String) (ignore : Bool) (s : ExtendedSubmission)
      → Leads (review_one env uid a message ignore s) (IsTraced n) (IsTraced n)
  unfolding review_one
  review_one-IsTraced uid a message ignore s =
      let T = IsTraced n in
      Leads-bind _ _ T T T
        (when-Leads _ _ T (
          Leads-bind _ _ T T T (Still-Leads _ T (get_discord_user_roles-Still uid))
            (λ roles. when-Leads _ _ T (raise-IsTraced _))))
        (λ u. settle-IsTraced uid a message ignore s _)

  pub review_each-IsTraced :
      (uid : ℕ) (a : Action) (message : Option String) (ignore : Bool)
      (found : List ExtendedSubmission)
      → Leads (review_each env uid a message ignore found) (IsTraced n) (IsTraced n)
  unfolding review_each
  review_each-IsTraced uid a message ignore [] = Still-Leads skip (IsTraced n) skip-Still
  review_each-IsTraced uid a message ignore (s ∷ found) =
      Leads-bind _ _ (IsTraced n) (IsTraced n) (IsTraced n)
        (review_one-IsTraced uid a message ignore s)
        (λ u. review_each-IsTraced uid a message ignore found)
