-- ===== src/Stake/Validators.antt =====
-- The choice of the validators and what is reported of it to the consensus engine
-- (ctrlers/stake/ctrler.go: `selectValidators`, `validatorUpdates`, `updateValidators`).
use rigo_go.Base.{
  ℕ, zero, suc, ◌+◌, Bool, true, false, not, List, [], ◌∷◌, ◌==◌, ltb, if◌then◌else◌,
}
use rigo_go.Base.Bytes.{Bytes, ◌=b◌, bytes_lt}
use rigo_go.Base.Lists.{length, take}
use rigo_go.Base.Words.{Int64}
use rigo_go.Base.Sort.{sort}
use rigo_go.Stake.Delegatee.{Delegatee, power_order, address_order}

-- `abcitypes.ValidatorUpdate`: a key, and the power that it is to have, 0 for none.
pub record ValidatorUpdate : Type 0 where
  pub pub_key : Bytes
  pub power : Int64

abbrev pub removal : Delegatee → ValidatorUpdate
removal d = record { pub_key = d.pub_key; power = 0 }

abbrev pub arrival : Delegatee → ValidatorUpdate
arrival d = record { pub_key = d.pub_key; power = d.total_power }

-- The three loops of `validatorUpdates`, on the rests of the two lists. A round shortens one of
-- them, so the fuel, the sum of the lengths, is never used up.
unfoldable pub merge : ℕ → List Delegatee → List Delegatee → List ValidatorUpdate
unfolding bytes_lt
merge fuel [] [] = []
merge fuel [] (n ∷ ns) = arrival n ∷ merge fuel [] ns
merge fuel (e ∷ es) [] = removal e ∷ merge fuel es []
merge zero (e ∷ es) (n ∷ ns) = []
merge (suc fuel) (e ∷ es) (n ∷ ns) =
    let gone = removal e ∷ merge fuel es (n ∷ ns) in
    let came = arrival n ∷ merge fuel (e ∷ es) ns in
    let both = merge fuel es ns in
    if bytes_lt e.addr n.addr
    then gone
    else if e.addr =b n.addr
    then (if not (e.total_power == n.total_power) then arrival n ∷ both else both)
    else came

unfoldable pub validator_updates : List Delegatee → List Delegatee → List ValidatorUpdate
unfolding merge
validator_updates existing newers = merge (length existing + length newers) existing newers

-- `delegatees[:libs.MIN(len(delegatees), maxVals)]`
unfoldable pub select_validators : ℕ → List Delegatee → List Delegatee
select_validators max_vals delegatees =
    take (if ltb (length delegatees) max_vals then length delegatees else max_vals) delegatees

-- `updateValidators`: the updates, and the new `lastValidators`.
unfoldable pub update_validators :
    ℕ → List Delegatee → List Delegatee → List ValidatorUpdate × List Delegatee
unfolding validator_updates select_validators address_order power_order
update_validators max_vals all_delegatees last_validators =
    let chosen = select_validators max_vals all_delegatees in
    (
      validator_updates (sort address_order last_validators) (sort address_order chosen),
      sort power_order (sort address_order chosen),
    )

-- `IsValidator`
unfoldable pub is_validator : Bytes → List Delegatee → Bool
is_validator addr [] = false
is_validator addr (v ∷ vs) = if v.addr =b addr then true else is_validator addr vs
