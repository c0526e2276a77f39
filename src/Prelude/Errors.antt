-- ===== src/Prelude/Errors.antt =====
-- Errors as values: constants/errors_model.go with `perr` and `dberr` of service/serviceutils.go.
-- `panic` stands for a run-time panic. A message is kept as its text, or as its format with the number that `%d` stands for.
use Prim.Native.Nat.{ℕ}
use Prim.Native.String.{String}
use mathlib.Core.Path.{◌≡◌, refl}
use mathlib.Core.Logic.{◌⊎◌, inl, inr}
use mathlib.Core.Bool.{Bool, true, false}
use mathlib.Core.Option.{Option, none, some}

pub data Message : Type 0 where
  text : String → Message
  about : String → ℕ → Message

pub data Error : Type 0 where
  public_error : Message → ℕ → Error
  database_error : Error
  plain_error : Message → Error
  panic : Error

abbrev pub perr : Message → ℕ → Error
perr msg status = public_error msg status

-- `fmt.Errorf`
abbrev pub errorf : Message → Error
errorf msg = plain_error msg

abbrev pub dberr : Error
dberr = database_error

abbrev pub bad_request : ℕ
bad_request = 400

abbrev pub unauthorized : ℕ
unauthorized = 401

abbrev pub forbidden : ℕ
forbidden = 403

abbrev pub not_found : ℕ
not_found = 404

abbrev pub conflict : ℕ
conflict = 409

-- A Go function that returns `(A, error)`: a value where the error is nil, an error otherwise.
pub data Result {ℓ} (A : Type ℓ) : Type ℓ where
  ok : A → Result A
  err : Error → Result A

pub Result-cases {ℓ} :
    {A : Type ℓ} (r : Result A) → ((a : A) × (r ≡ ok a)) ⊎ ((e : Error) × (r ≡ err e))
Result-cases (ok a) = inl (a, refl)
Result-cases (err e) = inr (e, refl)

infixl 5 ◌>>=◌ ◌>>◌
abbrev pub ◌>>=◌ {ℓ κ} : {A : Type ℓ} {B : Type κ} → Result A → (A → Result B) → Result B
ok a >>= f = f a
err e >>= f = err e

-- A check, and then what follows it.
abbrev pub ◌>>◌ : {B : Type 0} → Result (Unit {0}) → Result B → Result B
check >> rest = check >>= λ _. rest

-- `if err := check(); err != nil { return err }`, check by check; `none` is a nil error.
infixr 20 ◌or_else◌
abbrev pub ◌or_else◌ : Option Error → Option Error → Option Error
none or_else e = e
(some x) or_else e = some x

-- `if cond { return perr(...) }`
abbrev pub refuse_if : Bool → Error → Option Error
refuse_if true e = some e
refuse_if false e = none
