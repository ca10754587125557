-- ===== src/Stake/Laws/Ctrler/Checking.antt =====
-- Validations of staking outside a block, and what executions outside a block do to the accounts
-- (ctrlers/stake/ctrler.go).
use rigo_go.Base.{◌≡◌, false, arith}
use rigo_go.Base.Words.{UInt256}
use rigo_go.Ledger.Tree.{TreeOps}
use rigo_go.Account.Struct.{Sign}
use rigo_go.Account.Codec.{AcctCodec}
use rigo_go.Account.Ctrler.{AcctCtrler}
use rigo_go.Account.Laws.Isolation.{acct_block}
use rigo_go.Gov.Params.{GovParams}
use rigo_go.Stake.Ctrler.{
  StakeCodec, StakeCtrler, get_delegatee, get_reward, check_limits, validate_trx, validate_staking,
  validate_unstaking, validate_withdraw, withdrawing_after, staking_after,
}
use rigo_go.Stake.Ctrler.Executing.{
  stake_to, staked_after, exe_staking, exe_withdraw, withdraw_from, withdrawn_after, execute_trx,
}
use rigo_go.Stake.Laws.Ctrler.Isolation.{block_state}
use rigo_go.Trx.{TrxContext}

module _ {Tree : Type 0} (codec : StakeCodec) (trees : TreeOps Tree) where
  pub validate_trx-block :
      (gov : GovParams) (ctx : TrxContext) (s : StakeCtrler Tree)
      → ctx.exec ≡ false
      → block_state (validate_trx codec trees gov ctx s).1 ≡ block_state s
  unfolding validate_trx validate_staking validate_unstaking validate_withdraw withdrawing_after
      staking_after check_limits get_delegatee get_reward
  validate_trx-block gov ctx s e = ground (arith, e)

module _ {Tree : Type 0} (codec : StakeCodec) (acct_codec : AcctCodec) (trees : TreeOps Tree)
    (sign : UInt256 → Sign) where
  pub execute_trx-acct_block :
      (gov : GovParams) (ctx : TrxContext) (s : StakeCtrler Tree) (accts : AcctCtrler Tree)
      → ctx.exec ≡ false
      → acct_block (execute_trx codec acct_codec trees sign gov ctx s accts).2 ≡ acct_block accts
  unfolding execute_trx exe_staking stake_to staked_after exe_withdraw withdraw_from withdrawn_after
  execute_trx-acct_block gov ctx s accts e = ground (arith, e)
