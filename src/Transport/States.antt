-- ===== src/Transport/States.antt =====
-- transport/auth.go: `StateKeeper`, the states that a login through Discord carries around.
use package.text.Mathlib.Text.{◌==◌ as str_eq}
use package.text.Mathlib.TextEquality.{eq_iff}
use flashpoint_submission_sy.Prelude.{
  ℕ, ◌+◌, ◌≡◌, refl, ap, ◌∙◌, Bool, true, false, not, Option, none, some, String, List, [], ◌∷◌,
  arith, any, keep, ltb, if◌then◌else◌,
}

pub record State : Type 0 where
  pub nonce : String
  pub dest : String

-- The map of nonces, and how long they are to be kept.
pub record StateKeeper : Type 0 where
  pub states : List (String × ℕ)
  pub expiration : ℕ

-- `json.Marshal` and base64 in one, and the way back.
pub record Codec : Type 0 where
  pub encode : State → String
  pub decode : String → Option State

abbrev is_named : String → String × ℕ → Bool
is_named nonce p = str_eq p.0 nonce

-- `v.After(v.Add(...))`
unfoldable pub is_expired : ℕ → ℕ → Bool
is_expired expiration v = ltb (v + expiration) v

unfoldable pub clean : StateKeeper → StateKeeper
unfolding is_expired
clean sk = record sk { states = keep (λ p. not (is_expired sk.expiration p.1)) sk.states }

-- `delete(sk.states, nonce)`
unfoldable pub delete : String → StateKeeper → StateKeeper
delete nonce sk = record sk { states = keep (λ p. not (is_named nonce p)) sk.states }

-- `sk.states[nonce] = t`
unfoldable pub store : String → ℕ → StateKeeper → StateKeeper
unfolding delete
store nonce t sk = record sk { states = (nonce, t) ∷ (delete nonce sk).states }

-- The uuid is `none` where it cannot be made; so is the result.
unfoldable pub generate :
    Codec → Option String → ℕ → String → StateKeeper → Option String × StateKeeper
unfolding clean store
generate codec none t dest sk = (none, clean sk)
generate codec (some nonce) t dest sk =
    (some (codec.encode (record { nonce = nonce; dest = dest })), store nonce t (clean sk))

unfoldable pub consume_state : Option State → StateKeeper → (String × Bool) × StateKeeper
unfolding delete
consume_state none sk = (("", false), sk)
consume_state (some s) sk =
    let found = any (is_named s.nonce) sk.states in
    ((s.dest, found), (if found then delete s.nonce sk else sk))

unfoldable pub consume : Codec → String → StateKeeper → (String × Bool) × StateKeeper
unfolding clean consume_state
consume codec b sk = consume_state (codec.decode b) (clean sk)

keep_everything :
    (expiration : ℕ) (states : List (String × ℕ))
    → keep (λ p. not (is_expired expiration p.1)) states ≡ states
unfolding is_expired
keep_everything expiration [] = refl
keep_everything expiration (p ∷ states) = ground (arith, keep_everything expiration states)

-- No state ever expires: the cleaning keeps every one, whatever its age.
pub clean_lem : (sk : StateKeeper) → clean sk ≡ sk
unfolding clean
clean_lem sk = ground (arith, keep_everything sk.expiration sk.states)

any-delete :
    (nonce : String) (states : List (String × ℕ))
    → any (is_named nonce) (keep (λ p. not (is_named nonce p)) states) ≡ false
any-delete nonce [] = refl
any-delete nonce (p ∷ states) = ground (arith, any-delete nonce states)

consume_state_known :
    (s : State) (sk : StateKeeper)
    → any (is_named s.nonce) sk.states ≡ true
    → consume_state (some s) sk ≡ ((s.dest, true), delete s.nonce sk)
unfolding consume_state
consume_state_known s sk h = rw h refl

consume_state_unknown :
    (s : State) (sk : StateKeeper)
    → any (is_named s.nonce) sk.states ≡ false
    → consume_state (some s) sk ≡ ((s.dest, false), sk)
unfolding consume_state
consume_state_unknown s sk h = rw h refl

store_known :
    (nonce : String) (t : ℕ) (sk : StateKeeper)
    → any (is_named nonce) (store nonce t sk).states ≡ true
unfolding store
store_known nonce t sk = ground (arith, (eq_iff nonce nonce).1 refl)

delete_unknown :
    (nonce : String) (sk : StateKeeper) → any (is_named nonce) (delete nonce sk).states ≡ false
unfolding delete
delete_unknown nonce sk = any-delete nonce sk.states

consume_state-store :
    (s : State) (t : ℕ) (sk : StateKeeper)
    → let first = consume_state (some s) (store s.nonce t sk) in
      (first.0 ≡ (s.dest, true)) × ((consume_state (some s) first.1).0 ≡ (s.dest, false))
consume_state-store s t sk =
    let kept : StateKeeper = store s.nonce t sk in
    let first = consume_state_known s kept (store_known s.nonce t sk) in
    (
      ap (λ (p : (String × Bool) × StateKeeper). p.0) first,
      ap (λ (p : (String × Bool) × StateKeeper). (consume_state (some s) p.1).0) first
          ∙ ap (λ (p : (String × Bool) × StateKeeper). p.0)
              (consume_state_unknown s (delete s.nonce kept) (delete_unknown s.nonce kept)),
    )

consume-decode :
    (codec : Codec) (b : String) (s : State) (sk : StateKeeper)
    → codec.decode b ≡ some s
    → consume codec b sk ≡ consume_state (some s) sk
unfolding consume
consume-decode codec b s sk d =
    ap (λ o. consume_state o (clean sk)) d ∙ ap (consume_state (some s)) (clean_lem sk)

generated :
    (codec : Codec) (s : State) (b : String)
    → codec.decode (codec.encode s) ≡ some s
    → some (codec.encode s) ≡ some b
    → codec.decode b ≡ some s
generated codec s b law made = ground (arith, law)

-- A state that is generated leads to its destination once: if its encoding can be read back, the first
-- consumption succeeds with the destination, and a second one is refused.
pub consume-generate :
    (codec : Codec) (s : State) (t : ℕ) (sk : StateKeeper) (b : String)
    → codec.decode (codec.encode s) ≡ some s
    → (generate codec (some s.nonce) t s.dest sk).0 ≡ some b
    → ((consume codec b (generate codec (some s.nonce) t s.dest sk).1).0 ≡ (s.dest, true))
      × ((consume codec b (consume codec b (generate codec (some s.nonce) t s.dest sk).1).1).0
          ≡ (s.dest, false))
unfolding generate
consume-generate codec s t sk b law made =
    let kept : StateKeeper = store s.nonce t (clean sk) in
    let d : codec.decode b ≡ some s = generated codec s b law made in
    let first : consume codec b kept ≡ consume_state (some s) kept =
      consume-decode codec b s kept d in
    let once = consume_state-store s t (clean sk) in
    (
      ap (λ (p : (String × Bool) × StateKeeper). p.0) first ∙ once.0,
      ap (λ (p : (String × Bool) × StateKeeper). p.0)
            (consume-decode codec b s (consume codec b kept).1 d)
          ∙ ap (λ (p : (String × Bool) × StateKeeper). (consume_state (some s) p.1).0) first
          ∙ once.1,
    )
