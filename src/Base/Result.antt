-- ===== src/Base/Result.antt =====
-- Results and errors (types/xerrors/xerror.go). An `xerrors.XError` is compared by identity with
-- the package's values, so each of those is a constructor; `ordinary` stands for the errors made
-- by `NewOrdinary` and `From`, which are never compared.
use Prim.Native.String.{String}
use mathlib.Core.Path.{◌≡◌, refl}
use mathlib.Core.Logic.{◌⊎◌, inl, inr}

pub data XError : Type 0 where
  not_found_result not_found_account not_found_delegatee not_found_stake : XError
  not_found_proposal not_found_voter not_voting_period no_right duplicated_key : XError
  invalid_nonce invalid_amount insufficient_fund : XError
  invalid_address invalid_gas invalid_gas_price invalid_trx : XError
  invalid_trx_payload_type invalid_trx_payload_params unknown_trx_type : XError
  updatable_stake_ratio commit_error : XError
  ordinary : String → XError
  -- a Go panic (a nil dereference, an index out of range, an explicit `panic`)
  panicked : XError

pub data Result {ℓ} (A : Type ℓ) : Type ℓ where
  ok : A → Result A
  err : XError → Result A

infixl 5 ◌>>=◌ ◌>>◌
abbrev pub ◌>>=◌ {ℓ κ} : {A : Type ℓ} {B : Type κ} → Result A → (A → Result B) → Result B
ok a >>= f = f a
err e >>= f = err e

abbrev pub ◌>>◌ {ℓ κ} : {A : Type ℓ} {B : Type κ} → Result A → Result B → Result B
m >> k = m >>= λ _. k

-- `xerrors.From`: a new ordinary error with the text of the old one; the texts of the package's
-- own values are not kept apart.
unfoldable pub from_error : XError → XError
from_error (ordinary s) = ordinary s
from_error e = ordinary "error"

pub Result-cases {ℓ} :
    {A : Type ℓ} (r : Result A) → ((a : A) × (r ≡ ok a)) ⊎ ((e : XError) × (r ≡ err e))
Result-cases (ok a) = inl (a, refl)
Result-cases (err e) = inr (e, refl)
