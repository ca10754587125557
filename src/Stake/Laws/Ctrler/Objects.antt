-- ===== src/Stake/Laws/Ctrler/Objects.antt =====
-- An execution of staking outside a block works on the account objects of the checks
-- (ctrlers/stake/ctrler.go).
use rigo_go.Base.{ℕ, ◌≡◌, false, Option, none, some, inl, inr, refl}
use rigo_go.Base.Words.{UInt256}
use rigo_go.Base.Result.{Result, ok, err, Result-cases}
use rigo_go.Base.Store.{Ref}
use rigo_go.Ledger.Tree.{TreeOps}
use rigo_go.Account.Struct.{Account, Sign}
use rigo_go.Account.Codec.{AcctCodec}
use rigo_go.Account.Heap.{Heap, debit}
use rigo_go.Account.Ctrler
use rigo_go.Account.Ctrler.{AcctCtrler}
use rigo_go.Account.Laws.Objects.{
  IsOutside, AreOthers, Keeps, debit-Keeps, set_account_committable-Outside, reward-Outside,
}
use rigo_go.Gov.Params.{GovParams}
use rigo_go.Stake.Reward.{Reward}
use rigo_go.Stake.Ctrler.{StakeCodec, StakeCtrler, get_delegatee, or_nil}
use rigo_go.Stake.Ctrler.Executing.{
  delegatee_for, stake_to, staked_after, exe_staking, exe_withdraw, withdraw_from, withdrawn_after,
  execute_trx,
}
use rigo_go.Trx.{TrxContext, TrxType, TrxPayload, staking, withdraw, withdraw_reward}

module _ {Tree : Type 0} (codec : StakeCodec) (acct_codec : AcctCodec) (trees : TreeOps Tree)
    (sign : UInt256 → Sign) (i : ℕ) (acct : Account) where
  staked_after-Outside :
      (ctx : TrxContext) (r : Ref) (s : StakeCtrler Tree) (accts : AcctCtrler Tree)
      (out : Result (Unit {0}) × Heap)
      → ctx.exec ≡ false
      → AreOthers acct_codec trees sign i ctx
      → IsOutside i acct accts
      → Keeps acct_codec trees sign i acct out.1
      → IsOutside i acct (staked_after codec acct_codec trees sign ctx r s accts out).2
  unfolding staked_after
  staked_after-Outside ctx r s accts (err x, h) e others o kept = (kept.0, kept.1, o.2)
  staked_after-Outside ctx r s accts (ok _, h) e others o kept =
      set_account_committable-Outside acct_codec trees sign i acct ctx.sender ctx.exec
        (record accts { heap = h }) e others.0 (kept.0, kept.1, o.2)

  stake_to-Outside :
      (ctx : TrxContext) (accts : AcctCtrler Tree) (chosen : Result Ref × StakeCtrler Tree)
      → ctx.exec ≡ false
      → AreOthers acct_codec trees sign i ctx
      → IsOutside i acct accts
      → IsOutside i acct (stake_to codec acct_codec trees sign ctx accts chosen).2
  unfolding stake_to
  stake_to-Outside ctx accts (err x, s) e others o = o
  stake_to-Outside ctx accts (ok r, s) e others o =
      staked_after-Outside ctx r s accts (debit sign ctx.tx.amount ctx.sender accts.heap) e others o
        (debit-Keeps acct_codec trees sign i acct ctx.tx.amount ctx.sender accts.heap others.0
          (o.0, o.1))

  exe_staking-Outside :
      (ctx : TrxContext) (s : StakeCtrler Tree) (accts : AcctCtrler Tree)
      → ctx.exec ≡ false
      → AreOthers acct_codec trees sign i ctx
      → IsOutside i acct accts
      → IsOutside i acct (exe_staking codec acct_codec trees sign ctx s accts).2
  unfolding exe_staking
  exe_staking-Outside ctx s accts e others o =
      let (found, s₁) = get_delegatee codec trees ctx.tx.to ctx.exec s in
      elim (Result-cases (or_nil codec trees found)) [
        | inr (x, failed) ↦ rw (failed, exe_staking) o
        | inl (known, is) ↦
            rw (is, exe_staking)
              (stake_to-Outside ctx accts (delegatee_for codec trees ctx known s₁) e others o)
      ]

  withdrawn_after-Outside :
      (ctx : TrxContext) (req_amt : UInt256) (taken : Result Reward) (s : StakeCtrler Tree)
      (accts : AcctCtrler Tree)
      → ctx.exec ≡ false
      → IsOutside i acct accts
      → IsOutside i acct (withdrawn_after codec acct_codec trees sign ctx req_amt taken s accts).2
  unfolding withdrawn_after
  withdrawn_after-Outside ctx req_amt (err x) s accts e o = o
  withdrawn_after-Outside ctx req_amt (ok rwd) s accts e o =
      let o' =
        reward-Outside acct_codec trees sign i acct ctx.sender.addr req_amt ctx.exec accts e o in
      elim (Result-cases
        (Ctrler.reward acct_codec trees sign ctx.sender.addr req_amt ctx.exec accts).0) [
          | inl (_, paid) ↦ rw (paid, withdrawn_after) o'
          | inr (x, failed) ↦ rw (failed, withdrawn_after) o'
        ]

  withdraw_from-Outside :
      (ctx : TrxContext) (req_amt : UInt256) (found : Result Reward × StakeCtrler Tree)
      (accts : AcctCtrler Tree)
      → ctx.exec ≡ false
      → IsOutside i acct accts
      → IsOutside i acct (withdraw_from codec acct_codec trees sign ctx req_amt found accts).2
  unfolding withdraw_from
  withdraw_from-Outside ctx req_amt (err x, s) accts e o = o
  withdraw_from-Outside ctx req_amt (ok rwd, s) accts e o =
      withdrawn_after-Outside ctx req_amt _ s accts e o

  exe_withdraw-Outside :
      (ctx : TrxContext) (payload : Option TrxPayload) (s : StakeCtrler Tree)
      (accts : AcctCtrler Tree)
      → ctx.tx.payload ≡ payload
      → ctx.exec ≡ false
      → IsOutside i acct accts
      → IsOutside i acct (exe_withdraw codec acct_codec trees sign ctx s accts).2
  unfolding exe_withdraw
  exe_withdraw-Outside ctx none s accts has e o = rw (has, exe_withdraw) o
  exe_withdraw-Outside ctx (some (withdraw_reward req_amt)) s accts has e o =
      rw (has, exe_withdraw) (withdraw_from-Outside ctx req_amt _ accts e o)
  exe_withdraw-Outside ctx (some _) s accts has e o = rw (has, exe_withdraw) o

  by_type-Outside :
      (gov : GovParams) (ctx : TrxContext) (type : TrxType) (s : StakeCtrler Tree)
      (accts : AcctCtrler Tree)
      → ctx.tx.type ≡ type
      → ctx.exec ≡ false
      → AreOthers acct_codec trees sign i ctx
      → IsOutside i acct accts
      → IsOutside i acct (execute_trx codec acct_codec trees sign gov ctx s accts).2
  unfolding execute_trx
  by_type-Outside gov ctx staking s accts is e others o =
      rw (is, execute_trx) (exe_staking-Outside ctx s accts e others o)
  by_type-Outside gov ctx withdraw s accts is e others o =
      rw (is, execute_trx) (exe_withdraw-Outside ctx ctx.tx.payload s accts refl e o)
  by_type-Outside gov ctx _ s accts is e others o = rw (is, execute_trx) o

  pub execute_trx-Outside :
      (gov : GovParams) (ctx : TrxContext) (s : StakeCtrler Tree) (accts : AcctCtrler Tree)
      → ctx.exec ≡ false
      → AreOthers acct_codec trees sign i ctx
      → IsOutside i acct accts
      → IsOutside i acct (execute_trx codec acct_codec trees sign gov ctx s accts).2
  execute_trx-Outside gov ctx s accts e others o =
      by_type-Outside gov ctx ctx.tx.type s accts refl e others o
