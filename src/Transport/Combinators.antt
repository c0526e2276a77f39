-- ===== src/Transport/Combinators.antt =====
-- transport/middlewares.go: `muxAny`, `muxAll`, `muxNot`.
use flashpoint_submission_sy.Prelude.{
  ℕ, ◌≡◌, refl, true, false, not, List, [], ◌∷◌, arith, ok, ◌>>=◌, All, ◌⊎◌, ◌↔◌,
}
use flashpoint_submission_sy.Transport.Request.{Request, Authorizer}

unfoldable pub mux_any : List Authorizer → Authorizer
mux_any [] r uid = ok false
mux_any (a ∷ as_) r uid =
    let rest = mux_any as_ r uid in
    a r uid >>= λ allowed. elim allowed [ true ↦ ok true | false ↦ rest ]

unfoldable pub mux_all : List Authorizer → Authorizer
mux_all [] r uid = ok true
mux_all (a ∷ as_) r uid =
    let rest = mux_all as_ r uid in
    a r uid >>= λ allowed. elim allowed [ true ↦ rest | false ↦ ok false ]

unfoldable pub mux_not : Authorizer → Authorizer
mux_not a r uid = a r uid >>= λ allowed. ok (not allowed)

-- `muxAll` accepts exactly when each authorizer accepts.
pub mux_all_iff :
    (as_ : List Authorizer) (r : Request) (uid : ℕ)
    → (mux_all as_ r uid ≡ ok true) ↔ All (λ a. a r uid ≡ ok true) as_
unfolding mux_all
mux_all_iff [] r uid = (λ h. tt, λ h. refl)
mux_all_iff (a ∷ as_) r uid = ground (arith, mux_all_iff as_ r uid)

-- Some authorizer accepts, and each one in front of it declines without an error.
abbrev pub Some : List Authorizer → Request → ℕ → Type 0
Some [] r uid = ⊥
Some (a ∷ as_) r uid = (a r uid ≡ ok true) ⊎ ((a r uid ≡ ok false) × Some as_ r uid)

-- `muxAny` accepts exactly when some authorizer accepts before any fails.
pub mux_any_iff :
    (as_ : List Authorizer) (r : Request) (uid : ℕ) → (mux_any as_ r uid ≡ ok true) ↔ Some as_ r uid
unfolding mux_any
mux_any_iff [] r uid = (λ h. cc, λ h. absurd h)
mux_any_iff (a ∷ as_) r uid = ground (arith, mux_any_iff as_ r uid)
