-- ===== src/Stake/Ctrler/Executing.antt =====
-- `StakeCtrler` of ctrlers/stake/ctrler.go: the execution of its transactions, on the accounts too.
use rigo_go.Base.{Bool, true, false, ◌==◌, Option, none, some, List, [], ◌∷◌, if◌then◌else◌}
use rigo_go.Base.Bytes.{Bytes, ◌=b◌}
use rigo_go.Base.Words.{Int64, UInt256, add64}
use rigo_go.Base.Result.{
  Result, ok, err, not_found_delegatee, unknown_trx_type, invalid_trx_payload_type,
}
use rigo_go.Base.Store.{Ref, allocate, assign}
use rigo_go.Ledger.Tree.{TreeOps}
use rigo_go.Ledger.Simple
use rigo_go.Ledger.Finality.{set_finality, del_finality, cancel_set_finality}
use rigo_go.Account.Struct.{Sign}
use rigo_go.Account.Codec.{AcctCodec}
use rigo_go.Account.Heap.{Heap, debit}
use rigo_go.Account.Ctrler
use rigo_go.Account.Ctrler.{AcctCtrler, set_account_committable}
use rigo_go.Gov.Params.{GovParams}
use rigo_go.Stake.Item.{Stake, amount_to_power, new_stake_with_power}
use rigo_go.Stake.Delegatee.{Delegatee, new_delegatee, add_stake, del_stake, del_all_stakes}
use rigo_go.Stake.Reward
use rigo_go.Stake.Reward.{Reward}
use rigo_go.Stake.Ctrler.{
  StakeCodec, StakeCtrler, delegatee_items, delegatee_key, stake_items, reward_items, get_delegatee,
  get_reward, or_nil, check_unstaking,
}
use rigo_go.Trx.{TrxContext, staking, unstaking, withdraw, withdraw_reward}

-- a stake that is given back at a height
abbrev pub refunded_at : Int64 → Stake → Stake
refunded_at height s0 = record s0 { refund_height = height }

-- The stakes that a delegatee loses with its last self stake, and what is left of it.
unfoldable pub remaining : Delegatee → List Stake × Delegatee
unfolding del_all_stakes
remaining d = if d.self_power == 0 then del_all_stakes d else ([], d)

module _ {Tree : Type 0} (codec : StakeCodec) (trees : TreeOps Tree) where
  -- `setUpdateDelegatee` of a handler
  unfoldable pub set_delegatee : Ref → Bool → StakeCtrler Tree → StakeCtrler Tree
  unfolding set_finality Simple.set
  set_delegatee r true s = record s {
    delegatee_ledger = set_finality (delegatee_items codec) trees r s.delegatee_ledger;
  }
  set_delegatee r false s = record s {
    delegatee_ledger = record s.delegatee_ledger {
      simple = Simple.set (delegatee_items codec) trees r s.delegatee_ledger.simple;
    };
  }

  -- `delDelegatee` of a handler, as a step that may fail
  unfoldable pub del_delegatee :
      Ref → Bool → StakeCtrler Tree → Result (Unit {0}) × StakeCtrler Tree
  unfolding del_finality Simple.del
  del_delegatee r true s =
      let (res, l, h) =
        del_finality (delegatee_items codec) trees (delegatee_key r) s.delegatee_ledger s.heap in
      (elim res [ ok _ ↦ ok tt | err e ↦ err e ], record s { delegatee_ledger = l; heap = h })
  del_delegatee r false s =
      let (res, l, h) =
        Simple.del (delegatee_items codec) trees (delegatee_key r) s.delegatee_ledger.simple
          s.heap in
      (
        elim res [ ok _ ↦ ok tt | err e ↦ err e ],
        record s { delegatee_ledger = record s.delegatee_ledger { simple = l }; heap = h },
      )

  -- `setUpdateFrozen` of a handler
  unfoldable pub set_frozen : Stake → Bool → StakeCtrler Tree → StakeCtrler Tree
  unfolding set_finality Simple.set
  set_frozen s0 true s = record s {
    frozen_ledger = set_finality (stake_items codec) trees s0 s.frozen_ledger;
  }
  set_frozen s0 false s = record s {
    frozen_ledger = record s.frozen_ledger {
      simple = Simple.set (stake_items codec) trees s0 s.frozen_ledger.simple;
    };
  }

  unfoldable pub freeze_all : List Stake → Int64 → Bool → StakeCtrler Tree → StakeCtrler Tree
  unfolding set_frozen
  freeze_all [] height exec s = s
  freeze_all (s0 ∷ ss) height exec s =
      freeze_all ss height exec (set_frozen (refunded_at height s0) exec s)

  -- `setReward` and `cancelSetReward` of a handler
  unfoldable pub set_reward : Reward → Bool → StakeCtrler Tree → StakeCtrler Tree
  unfolding set_finality Simple.set
  set_reward rwd true s = record s {
    reward_ledger = set_finality (reward_items codec) trees rwd s.reward_ledger;
  }
  set_reward rwd false s = record s {
    reward_ledger = record s.reward_ledger {
      simple = Simple.set (reward_items codec) trees rwd s.reward_ledger.simple;
    };
  }

  unfoldable pub cancel_set_reward : Bytes → Bool → StakeCtrler Tree → StakeCtrler Tree
  unfolding cancel_set_finality Simple.cancel_set
  cancel_set_reward k true s = record s {
    reward_ledger = cancel_set_finality (reward_items codec) trees k s.reward_ledger;
  }
  cancel_set_reward k false s = record s {
    reward_ledger = record s.reward_ledger {
      simple = Simple.cancel_set (reward_items codec) trees k s.reward_ledger.simple;
    };
  }

  -- the delegatee that a stake is for: a staking to oneself makes one
  unfoldable pub delegatee_for :
      TrxContext → Option Ref → StakeCtrler Tree → Result Ref × StakeCtrler Tree
  unfolding allocate new_delegatee
  delegatee_for ctx (some r) s = (ok r, s)
  delegatee_for ctx none s =
      if ctx.tx.from =b ctx.tx.to
      then (let (r, h) =
            allocate ctx.tx.from (new_delegatee ctx.tx.from ctx.sender_pub_key) s.heap in
          (ok r, record s { heap = h }))
      else (err not_found_delegatee, s)

  -- the new stake of a delegatee
  unfoldable pub delegate :
      TrxContext → Ref → Result Int64 → StakeCtrler Tree → Result (Unit {0}) × StakeCtrler Tree
  unfolding new_stake_with_power add_stake add64 assign set_delegatee
  delegate ctx r (err e) s = (err e, s)
  delegate ctx r (ok power) s =
      let s0 = new_stake_with_power ctx.tx.from ctx.tx.to power (add64 ctx.height 1) ctx.tx_hash in
      let d = add_stake (s0 ∷ []) (s.heap.cell r.id) in
      (ok tt, set_delegatee r ctx.exec (record s { heap = assign r.id d s.heap }))

  -- what an un-staking leaves of its delegatee, once the stake is out: without a self stake it
  -- loses the others too, and without a stake it goes
  unfoldable pub unstaked_after :
      TrxContext → Ref → Int64 → Delegatee → StakeCtrler Tree → Result (Unit {0}) × StakeCtrler Tree
  unfolding remaining freeze_all assign del_delegatee set_delegatee
  unstaked_after ctx r refund d s =
      let (stakes, d') = remaining d in
      let s₁ = record (freeze_all stakes refund ctx.exec s) { heap = assign r.id d' s.heap } in
      if d'.total_power == 0
      then del_delegatee r ctx.exec s₁
      else (ok tt, set_delegatee r ctx.exec s₁)

  -- the stake that `FindStake` found, out of its delegatee
  unfoldable pub unstake :
      GovParams
      → TrxContext
      → Ref
      → Result Stake
      → StakeCtrler Tree
      → Result (Unit {0}) × StakeCtrler Tree
  unfolding del_stake add64 set_frozen unstaked_after
  unstake gov ctx r (err e) s = (err e, s)
  unstake gov ctx r (ok s0) s =
      let refund = add64 ctx.height gov.lazy_reward_blocks in
      let (_, d) = del_stake s0.tx_hash (s.heap.cell r.id) in
      unstaked_after ctx r refund d (set_frozen (refunded_at refund s0) ctx.exec s)

  -- `exeUnstaking`
  unfoldable pub exe_unstaking :
      GovParams → TrxContext → StakeCtrler Tree → Result (Unit {0}) × StakeCtrler Tree
  unfolding get_delegatee check_unstaking unstake
  exe_unstaking gov ctx s =
      let (found, s₁) = get_delegatee codec trees ctx.tx.to ctx.exec s in
      elim found [
        | err e ↦ (err e, s₁)
        | ok r ↦
            unstake gov ctx r
              (check_unstaking codec trees ctx.tx.from ctx.tx.payload (s₁.heap.cell r.id)) s₁
      ]

module _ {Tree : Type 0} (codec : StakeCodec) (acct_codec : AcctCodec) (trees : TreeOps Tree)
    (sign : UInt256 → Sign) where
  -- what follows the debit of the sender
  unfoldable pub staked_after :
      TrxContext
      → Ref
      → StakeCtrler Tree
      → AcctCtrler Tree
      → Result (Unit {0}) × Heap
      → Result (Unit {0}) × StakeCtrler Tree × AcctCtrler Tree
  unfolding set_account_committable amount_to_power delegate
  staked_after ctx r s accts (err e, h) = (err e, s, record accts { heap = h })
  staked_after ctx r s accts (ok _, h) =
      let accts' =
        set_account_committable acct_codec trees sign ctx.sender ctx.exec
          (record accts { heap = h }) in
      let (res, s') = delegate codec trees ctx r (amount_to_power ctx.tx.amount) s in
      (res, s', accts')

  -- what follows the choice of the delegatee
  unfoldable pub stake_to :
      TrxContext
      → AcctCtrler Tree
      → Result Ref × StakeCtrler Tree
      → Result (Unit {0}) × StakeCtrler Tree × AcctCtrler Tree
  unfolding debit staked_after
  stake_to ctx accts (err e, s) = (err e, s, accts)
  stake_to ctx accts (ok r, s) =
      staked_after ctx r s accts (debit sign ctx.tx.amount ctx.sender accts.heap)

  -- `exeStaking`
  unfoldable pub exe_staking :
      TrxContext
      → StakeCtrler Tree
      → AcctCtrler Tree
      → Result (Unit {0}) × StakeCtrler Tree × AcctCtrler Tree
  unfolding get_delegatee delegatee_for stake_to
  exe_staking ctx s accts =
      let (found, s₁) = get_delegatee codec trees ctx.tx.to ctx.exec s in
      elim (or_nil codec trees found) [
        | err e ↦ (err e, s₁, accts)
        | ok known ↦ stake_to ctx accts (delegatee_for codec trees ctx known s₁)
      ]

  -- what follows the withdrawal from the reward: it goes to the sender's account, or the setting of
  -- the reward is cancelled
  unfoldable pub withdrawn_after :
      TrxContext
      → UInt256
      → Result Reward
      → StakeCtrler Tree
      → AcctCtrler Tree
      → Result (Unit {0}) × StakeCtrler Tree × AcctCtrler Tree
  unfolding set_reward cancel_set_reward Ctrler.reward
  withdrawn_after ctx req_amt (err e) s accts = (err e, s, accts)
  withdrawn_after ctx req_amt (ok rwd) s accts =
      let s₁ = set_reward codec trees rwd ctx.exec s in
      let (res, accts') =
        Ctrler.reward acct_codec trees sign ctx.sender.addr req_amt ctx.exec accts in
      elim res [
        | ok _ ↦ (ok tt, s₁, accts')
        | err e ↦ (
          err e,
          cancel_set_reward codec trees ((reward_items codec).key rwd) ctx.exec s₁,
          accts',
        )
      ]

  unfoldable pub withdraw_from :
      TrxContext
      → UInt256
      → Result Reward × StakeCtrler Tree
      → AcctCtrler Tree
      → Result (Unit {0}) × StakeCtrler Tree × AcctCtrler Tree
  unfolding Reward.withdraw withdrawn_after
  withdraw_from ctx req_amt (err e, s) accts = (err e, s, accts)
  withdraw_from ctx req_amt (ok rwd, s) accts =
      withdrawn_after ctx req_amt (Reward.withdraw req_amt ctx.height rwd) s accts

  -- `exeWithdraw`
  unfoldable pub exe_withdraw :
      TrxContext
      → StakeCtrler Tree
      → AcctCtrler Tree
      → Result (Unit {0}) × StakeCtrler Tree × AcctCtrler Tree
  unfolding get_reward withdraw_from
  exe_withdraw ctx s accts = elim ctx.tx.payload [
    | none ↦ (err invalid_trx_payload_type, s, accts)
    | some payload ↦ elim payload [
      | withdraw_reward req_amt ↦
          withdraw_from ctx req_amt (get_reward codec trees ctx.tx.from ctx.exec s) accts
      | _ ↦ (err invalid_trx_payload_type, s, accts)
    ]
  ]

  unfoldable pub execute_trx :
      GovParams
      → TrxContext
      → StakeCtrler Tree
      → AcctCtrler Tree
      → Result (Unit {0}) × StakeCtrler Tree × AcctCtrler Tree
  unfolding exe_staking exe_unstaking exe_withdraw
  execute_trx gov ctx s accts = elim ctx.tx.type [
    | staking ↦ exe_staking ctx s accts
    | unstaking ↦ let (res, s') = exe_unstaking codec trees gov ctx s in (res, s', accts)
    | withdraw ↦ exe_withdraw ctx s accts
    | _ ↦ (err unknown_trx_type, s, accts)
  ]
