-- ===== src/Stake/Laws/Ctrler/Staking.antt =====
-- What a staking that is validated, or executed, does (`ValidateTrx` and `exeStaking` of
-- ctrlers/stake/ctrler.go).
use rigo_go.Base.{◌*◌, ◌^◌, ◌≡◌, ◌<◌, ◌⊎◌, inl, inr, Bool, true, false, [], ◌∷◌, arith}
use rigo_go.Base.Bytes.{◌=b◌}
use rigo_go.Base.Words.{Int64, UInt256, mul256, add64}
use rigo_go.Base.Result.{Result, ok, err, panicked, not_found_result, Result-cases}
use rigo_go.Base.Store.{Ref, Store}
use rigo_go.Ledger.MemItems.{MemItems}
use rigo_go.Ledger.Simple.{to_ledger_key}
use rigo_go.Ledger.Simple
use rigo_go.Ledger.Tree.{TreeOps}
use rigo_go.Account.Struct.{Sign}
use rigo_go.Account.Codec.{AcctCodec}
use rigo_go.Account.Heap.{AcctRef, Heap, debit, key}
use rigo_go.Account.Ctrler.{AcctCtrler}
use rigo_go.Gov.Params.{GovParams}
use rigo_go.Stake.Item.{amount_per_power, amount_to_power, power_to_amount, new_stake_with_power}
use rigo_go.Stake.Delegatee.{Delegatee, add_stake, new_delegatee}
use rigo_go.Stake.Ctrler.{
  StakeCodec, StakeCtrler, delegatee_key, staking_power, validate_staking, validate_trx,
}
use rigo_go.Stake.Laws.Ctrler.Stored.{IsStored, delegatees_in}
use rigo_go.Trx.{TrxContext, staking}

-- A power that was not cut to 64 bits is worth the amount that it was made of.
staking_power_lem :
    (amt : UInt256) (p : Int64)
    → amt < 2 ^ 64 * amount_per_power
    → staking_power amt ≡ ok p
    → (amount_to_power amt ≡ ok p) × (0 < p) × (p < 2 ^ 63) × (power_to_amount p ≡ amt)
unfolding staking_power amount_to_power power_to_amount mul256
staking_power_lem amt p fits e =
    (ground (arith, e), ground (arith, e, fits), ground (arith, e), ground (arith, e, fits))

module _ {Tree : Type 0} (codec : StakeCodec) (trees : TreeOps Tree) where
  -- A staking that is validated, of an amount below 2^64 whole coins, stakes a positive power, and
  -- `PowerToAmount` of that power, which the end of the freezing pays back, is the amount.
  pub validate_trx-staking :
      (gov : GovParams) (ctx : TrxContext) (s : StakeCtrler Tree)
      → ctx.tx.type ≡ staking
      → ctx.tx.amount < 2 ^ 64 * amount_per_power
      → (validate_trx codec trees gov ctx s).0 ≡ ok tt
      → (p : Int64) × (amount_to_power ctx.tx.amount ≡ ok p)
        × (0 < p)
        × (p < 2 ^ 63)
        × (power_to_amount p ≡ ctx.tx.amount)
  unfolding validate_trx validate_staking
  validate_trx-staking gov ctx s is_staking fits e =
      elim (Result-cases (staking_power ctx.tx.amount)) [
        | inr (x, refused) ↦ absurd (ground (arith, is_staking, refused, e))
        | inl (p, accepted) ↦
            let (made, positive, small, back) = staking_power_lem ctx.tx.amount p fits accepted in
            (p, made, positive, small, back)
      ]

module _ {Tree : Type 0} (codec : StakeCodec) (acct_codec : AcctCodec) (trees : TreeOps Tree)
    (sign : UInt256 → Sign) where
  -- the delegatee that a staking is for, as it was: the one that was found, or a new one of the
  -- sender
  abbrev pub IsTarget : TrxContext → Result Ref × StakeCtrler Tree → Ref → Delegatee → Type 0
  IsTarget ctx (found, s) r d =
      ((found ≡ ok r) × (d ≡ s.heap.cell r.id))
      ⊎ ((found ≡ err not_found_result)
          × ((ctx.tx.from =b ctx.tx.to) ≡ true)
          × (d ≡ new_delegatee ctx.tx.from ctx.sender_pub_key))

  -- the accounts' cache of a block, or of the checks
  abbrev pub accounts_in : Bool → AcctCtrler Tree → MemItems AcctRef
  accounts_in true s = s.acct_ledger.finality_items
  accounts_in false s = s.acct_ledger.simple.cached_items

  -- What a staking does, by its result: an error that is no panic leaves the accounts as they were;
  -- a success has taken the amount from the sender and put a stake of its power to the delegatee,
  -- and both are in the caches of the execution.
  abbrev pub IsStaked :
      TrxContext
      → Result Ref × StakeCtrler Tree
      → AcctCtrler Tree
      → Result (Unit {0}) × StakeCtrler Tree × AcctCtrler Tree
      → Type 0
  IsStaked ctx found accts (err e, s', accts') = (e ≡ panicked) ⊎ (accts' ≡ accts)
  IsStaked ctx found accts (ok _, s', accts') =
      (debit sign ctx.tx.amount ctx.sender accts.heap ≡ (ok tt, accts'.heap))
      × (p : Int64) × (r : Ref) × (d : Delegatee) × (amount_to_power ctx.tx.amount ≡ ok p)
      × IsTarget ctx found r d
      × (s'.heap.cell r.id
          ≡ add_stake
              (new_stake_with_power ctx.tx.from ctx.tx.to p (add64 ctx.height 1) ctx.tx_hash ∷ [])
              d)
      × IsStored (delegatee_key r) r (delegatees_in ctx.exec s')
      × IsStored (key ctx.sender) ctx.sender (accounts_in ctx.exec accts')
