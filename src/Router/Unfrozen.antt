-- ===== src/Router/Unfrozen.antt =====
-- Which routes of transport/router.go change a submission that exists, and what reaches them.
use package.text.Mathlib.Text.{◌==◌ as str_eq}
use mathlib.Core.Path.{subst}
use flashpoint_submission_sy.Prelude.{
  ℕ, zero, suc, String, ◌≡◌, refl, sym, inl, inr, Bool, true, false, Bool-cases, Option, none, some,
  List, [], ◌∷◌, ◌++◌, All, keep, ok, arith,
}
use flashpoint_submission_sy.Transport.Request.{Request, Service, Authorizer}
use flashpoint_submission_sy.Transport.Combinators.{mux_all, mux_not}
use flashpoint_submission_sy.Router.Gates.{Decoder, Config, Sender, AuthInfo, reached}
use flashpoint_submission_sy.Router.Routes.{
  Route, Handler, user_auth, soft_delete_submission_file, soft_delete_submission,
  soft_delete_comment, override_bot, apply_submission_meta_edit_page, submission_receiver_resumable,
  submission_is_frozen, is_deleter_user,
}
use flashpoint_submission_sy.Router.Pages.{page_routes, profile_routes}
use flashpoint_submission_sy.Router.Games.{game_page_routes, game_routes}
use flashpoint_submission_sy.Router.Submissions.{submission_routes, receiver_routes}
use flashpoint_submission_sy.Router.Tools.{file_routes, tool_routes}
use flashpoint_submission_sy.Router.Served.{routes, pass_gate, serve}
use flashpoint_submission_sy.Router.Guarded.{AllAccept, user_auth_mux_iff, passed_gate}

-- The deletions, the override of the bot, the edit of the metadata, and the upload of a version.
abbrev pub changes : Handler → String → Bool
changes soft_delete_submission_file path = true
changes soft_delete_submission path = true
changes soft_delete_comment path = true
changes override_bot path = true
changes apply_submission_meta_edit_page path = true
changes submission_receiver_resumable path =
    str_eq path "/api/submission-receiver-resumable/{submission-id}"
changes _ path = false

abbrev pub changes_submission : Route → Bool
changes_submission rt = changes rt.handler rt.path

-- Its authorizers accept a request only where the submission is not frozen.
IsFrozenGuarded : Service → Route → Type 0
IsFrozenGuarded svc rt =
    (authorizers : List Authorizer) × (rt.gate ≡ user_auth authorizers)
    × ((r : Request) (uid : ℕ)
        → AllAccept authorizers r uid
        → submission_is_frozen svc r uid ≡ ok false)

AreFrozenGuarded : Service → List Route → Type 0
AreFrozenGuarded svc rts = All (λ rt. changes_submission rt ≡ true → IsFrozenGuarded svc rt) rts

mux_not-refused :
    (a : Authorizer) (r : Request) (uid : ℕ) → mux_not a r uid ≡ ok true → a r uid ≡ ok false
unfolding mux_not
mux_not-refused a r uid h = ground arith

mux_all-refused :
    (a b : Authorizer) (r : Request) (uid : ℕ)
    → mux_all (mux_not a ∷ b ∷ []) r uid ≡ ok true
    → a r uid ≡ ok false
unfolding mux_all mux_not
mux_all-refused a b r uid h = ground arith

of_keep :
    (svc : Service) (rts : List Route)
    → All (IsFrozenGuarded svc) (keep changes_submission rts)
    → AreFrozenGuarded svc rts
unfolding AreFrozenGuarded
of_keep svc [] h = tt
of_keep svc (rt ∷ rts) h = elim (Bool-cases (changes_submission rt)) [
  | inl t ↦ let (first, rest) = kept t h in (λ c. first, of_keep svc rts rest)
  | inr t ↦ (λ c. absurd (ground arith), of_keep svc rts (dropped t h))
]
  where
    kept :
        changes_submission rt ≡ true
        → All (IsFrozenGuarded svc) (keep changes_submission (rt ∷ rts))
        → IsFrozenGuarded svc rt × All (IsFrozenGuarded svc) (keep changes_submission rts)
    kept t p = rw t at p

    dropped :
        changes_submission rt ≡ false
        → All (IsFrozenGuarded svc) (keep changes_submission (rt ∷ rts))
        → All (IsFrozenGuarded svc) (keep changes_submission rts)
    dropped t p = rw t at p

guarded_append :
    (svc : Service) (xs ys : List Route)
    → AreFrozenGuarded svc xs
    → AreFrozenGuarded svc ys
    → AreFrozenGuarded svc (xs ++ ys)
unfolding AreFrozenGuarded
guarded_append svc [] ys h k = k
guarded_append svc (x ∷ xs) ys h k = (h.0, guarded_append svc xs ys h.1 k)

-- A chunk of the table with no such route.
quiet_chunk :
    (svc : Service) (rts : List Route) → keep changes_submission rts ≡ [] → AreFrozenGuarded svc rts
quiet_chunk svc rts e = of_keep svc rts (subst (All (IsFrozenGuarded svc)) (sym e) tt)

page_routes-quiet :
    (config : Config) (svc : Service) → keep changes_submission (page_routes config svc) ≡ []
unfolding page_routes
page_routes-quiet config svc = elim (Bool-cases config.source_only_mode) [
  | inl t ↦ rw t refl
  | inr t ↦ rw t refl
]

submission_routes-AreFrozenGuarded : (svc : Service) → AreFrozenGuarded svc (submission_routes svc)
unfolding submission_routes IsFrozenGuarded
submission_routes-AreFrozenGuarded svc = of_keep svc (submission_routes svc) (
  (_, refl, λ r uid h. mux_not-refused (submission_is_frozen svc) r uid h.0),
  ((_, refl, λ r uid h. mux_not-refused (submission_is_frozen svc) r uid h.0), tt),
)

receiver_routes-AreFrozenGuarded :
    (config : Config) (svc : Service) → AreFrozenGuarded svc (receiver_routes config svc)
unfolding receiver_routes IsFrozenGuarded
receiver_routes-AreFrozenGuarded config svc = elim (Bool-cases config.source_only_admin_mode) [
  | inl t ↦
      of_keep svc (receiver_routes config svc)
        (rw t ((_, refl, λ r uid h. mux_not-refused (submission_is_frozen svc) r uid h.0), tt))
  | inr t ↦
      of_keep svc (receiver_routes config svc)
        (rw t ((_, refl, λ r uid h. mux_not-refused (submission_is_frozen svc) r uid h.0), tt))
]

file_routes-AreFrozenGuarded : (svc : Service) → AreFrozenGuarded svc (file_routes svc)
unfolding file_routes IsFrozenGuarded
file_routes-AreFrozenGuarded svc = of_keep svc (file_routes svc) (
  (
    _,
    refl,
    λ r uid h. mux_all-refused (submission_is_frozen svc) (is_deleter_user svc) r uid h.1.0,
  ),
  (
    (
      _,
      refl,
      λ r uid h. mux_all-refused (submission_is_frozen svc) (is_deleter_user svc) r uid h.0,
    ),
    (
      (
        _,
        refl,
        λ r uid h. mux_all-refused (submission_is_frozen svc) (is_deleter_user svc) r uid h.1.0,
      ),
      ((_, refl, λ r uid h. mux_not-refused (submission_is_frozen svc) r uid h.0), tt),
    ),
  ),
)

routes-AreFrozenGuarded :
    (config : Config) (svc : Service) → AreFrozenGuarded svc (routes config svc)
unfolding routes profile_routes game_page_routes game_routes tool_routes
routes-AreFrozenGuarded config svc =
    guarded_append svc (page_routes config svc) _
      (quiet_chunk svc (page_routes config svc) (page_routes-quiet config svc))
      (guarded_append svc (profile_routes svc) _ (quiet_chunk svc (profile_routes svc) refl) (
        guarded_append svc (game_page_routes svc) _ (quiet_chunk svc (game_page_routes svc) refl) (
          guarded_append svc (game_routes svc) _ (quiet_chunk svc (game_routes svc) refl) (
            guarded_append svc (submission_routes svc) _ (submission_routes-AreFrozenGuarded svc) (
              guarded_append svc (receiver_routes config svc) _
                (receiver_routes-AreFrozenGuarded config svc)
                (guarded_append svc (file_routes svc) (tool_routes svc)
                  (file_routes-AreFrozenGuarded svc) (quiet_chunk svc (tool_routes svc) refl)))))))

-- A position of the table, and the route there.
unfoldable pub route_at : ℕ → List Route → Option Route
route_at i [] = none
route_at zero (rt ∷ rts) = some rt
route_at (suc i) (rt ∷ rts) = route_at i rts

guarded_at :
    (svc : Service) (rts : List Route) (i : ℕ) (rt : Route)
    → AreFrozenGuarded svc rts
    → route_at i rts ≡ some rt
    → changes_submission rt ≡ true
    → IsFrozenGuarded svc rt
unfolding route_at AreFrozenGuarded
guarded_at svc [] i rt h e c = absurd (ground arith)
guarded_at svc (x ∷ rts) zero rt h e c =
    let same : x ≡ rt = ground arith in
    subst (IsFrozenGuarded svc) same (h.0 (subst (λ y. changes_submission y ≡ true) (sym same) c))
guarded_at svc (x ∷ rts) (suc i) rt h e c = guarded_at svc rts i rt h.1 e c

-- In every mode of the server: where a route of the table deletes a submission, a file or a comment,
-- overrides the bot, edits the metadata or receives a version of a submission, a request that reaches
-- its handler comes from a user with a session, and the submission that it names is found and not
-- frozen.
pub changes_unfrozen :
    (d : Decoder) (config : Config) (svc : Service) (i : ℕ) (rt : Route) (s : Sender) (r : Request)
    (user : Option AuthInfo)
    → route_at i (routes config svc) ≡ some rt
    → changes_submission rt ≡ true
    → serve d config rt s r ≡ reached user
    → (info : AuthInfo) × (user ≡ some info) × (submission_is_frozen svc r info.uid ≡ ok false)
unfolding serve pass_gate IsFrozenGuarded
changes_unfrozen d config svc i rt s r user at_i c served =
    let (authorizers, gated, unfrozen) =
      guarded_at svc (routes config svc) i rt (routes-AreFrozenGuarded config svc) at_i c in
    let passed = passed_gate d config rt s r user served in
    let (info, found, accept, in_scope, same) =
      (user_auth_mux_iff d rt.request_type authorizers rt.scope s r user).0
        (subst (λ g. pass_gate d config g rt s r ≡ reached user) gated passed) in
    (info, same, unfrozen r info.uid accept)
