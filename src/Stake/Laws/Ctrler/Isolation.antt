-- ===== src/Stake/Laws/Ctrler/Isolation.antt =====
-- The transactions of the pool of the node (`exec` is false) do not touch what a block has changed
-- (ctrlers/stake/ctrler.go).
use rigo_go.Base.{
  ◌≡◌, inl, inr, Bool, true, false, Bool-cases, Option, none, some, List, [], ◌∷◌, refl, ◌∙◌,
  if◌then◌else◌,
}
use rigo_go.Base.Bytes.{Bytes, ◌=b◌}
use rigo_go.Base.Words.{Int64, UInt256, add64}
use rigo_go.Base.Result.{Result, ok, err, Result-cases}
use rigo_go.Base.Store.{Ref}
use rigo_go.Ledger.MemItems.{MemItems}
use rigo_go.Ledger.Tree.{TreeOps}
use rigo_go.Account.Struct.{Sign}
use rigo_go.Account.Codec.{AcctCodec}
use rigo_go.Account.Heap.{Heap}
use rigo_go.Account.Ctrler
use rigo_go.Account.Ctrler.{AcctCtrler}
use rigo_go.Gov.Params.{GovParams}
use rigo_go.Stake.Item.{Stake}
use rigo_go.Stake.Delegatee.{Delegatee, del_stake}
use rigo_go.Stake.Reward.{Reward}
use rigo_go.Stake.Ctrler.{
  StakeCodec, StakeCtrler, get_delegatee, get_reward, or_nil, check_unstaking,
}
use rigo_go.Stake.Ctrler.Executing.{
  refunded_at, remaining, set_delegatee, del_delegatee, set_frozen, freeze_all, set_reward,
  cancel_set_reward, delegatee_for, delegate, unstaked_after, unstake, exe_unstaking, staked_after,
  stake_to, exe_staking, withdrawn_after, withdraw_from, exe_withdraw, execute_trx,
}
use rigo_go.Trx.{TrxContext, TrxType, TrxPayload, staking, unstaking, withdraw, withdraw_reward}

-- The caches of the block that is being executed, with the trees that they are written to.
pub record BlockState (Tree : Type 0) : Type 0 where
  pub delegatees : MemItems Ref
  pub frozen : MemItems Stake
  pub rewards : MemItems Reward
  pub delegatee_tree : Tree
  pub frozen_tree : Tree
  pub reward_tree : Tree

abbrev pub block_state : {Tree : Type 0} → StakeCtrler Tree → BlockState Tree
block_state s = record {
  delegatees = s.delegatee_ledger.finality_items;
  frozen = s.frozen_ledger.finality_items;
  rewards = s.reward_ledger.finality_items;
  delegatee_tree = s.delegatee_ledger.tree;
  frozen_tree = s.frozen_ledger.tree;
  reward_tree = s.reward_ledger.tree;
}

-- A choice between two outcomes of which both have the same caches.
module _ {Tree : Type 0} {b : BlockState Tree} where
  either_outcome :
      (test : Bool) (x y : Result (Unit {0}) × StakeCtrler Tree)
      → block_state x.1 ≡ b
      → block_state y.1 ≡ b
      → block_state (if test then x else y).1 ≡ b
  either_outcome true x y p q = p
  either_outcome false x y p q = q

module _ {Tree : Type 0} (codec : StakeCodec) (trees : TreeOps Tree) where
  get_delegatee-block :
      (addr : Bytes) (exec : Bool) (s : StakeCtrler Tree)
      → exec ≡ false
      → block_state (get_delegatee codec trees addr exec s).1 ≡ block_state s
  unfolding get_delegatee
  get_delegatee-block addr true s e = cc
  get_delegatee-block addr false s e = refl

  get_reward-block :
      (addr : Bytes) (exec : Bool) (s : StakeCtrler Tree)
      → exec ≡ false
      → block_state (get_reward codec trees addr exec s).1 ≡ block_state s
  unfolding get_reward
  get_reward-block addr true s e = cc
  get_reward-block addr false s e = refl

  set_delegatee-block :
      (r : Ref) (exec : Bool) (s : StakeCtrler Tree)
      → exec ≡ false
      → block_state (set_delegatee codec trees r exec s) ≡ block_state s
  unfolding set_delegatee
  set_delegatee-block r true s e = cc
  set_delegatee-block r false s e = refl

  del_delegatee-block :
      (r : Ref) (exec : Bool) (s : StakeCtrler Tree)
      → exec ≡ false
      → block_state (del_delegatee codec trees r exec s).1 ≡ block_state s
  unfolding del_delegatee
  del_delegatee-block r true s e = cc
  del_delegatee-block r false s e = refl

  set_frozen-block :
      (s0 : Stake) (exec : Bool) (s : StakeCtrler Tree)
      → exec ≡ false
      → block_state (set_frozen codec trees s0 exec s) ≡ block_state s
  unfolding set_frozen
  set_frozen-block s0 true s e = cc
  set_frozen-block s0 false s e = refl

  freeze_all-block :
      (ss : List Stake) (height : Int64) (exec : Bool) (s : StakeCtrler Tree)
      → exec ≡ false
      → block_state (freeze_all codec trees ss height exec s) ≡ block_state s
  unfolding freeze_all
  freeze_all-block [] height exec s e = refl
  freeze_all-block (s0 ∷ ss) height exec s e =
      freeze_all-block ss height exec _ e ∙ set_frozen-block _ exec s e

  set_reward-block :
      (rwd : Reward) (exec : Bool) (s : StakeCtrler Tree)
      → exec ≡ false
      → block_state (set_reward codec trees rwd exec s) ≡ block_state s
  unfolding set_reward
  set_reward-block rwd true s e = cc
  set_reward-block rwd false s e = refl

  cancel_set_reward-block :
      (k : Bytes) (exec : Bool) (s : StakeCtrler Tree)
      → exec ≡ false
      → block_state (cancel_set_reward codec trees k exec s) ≡ block_state s
  unfolding cancel_set_reward
  cancel_set_reward-block k true s e = cc
  cancel_set_reward-block k false s e = refl

  delegatee_for-block :
      (ctx : TrxContext) (known : Option Ref) (s : StakeCtrler Tree)
      → block_state (delegatee_for codec trees ctx known s).1 ≡ block_state s
  unfolding delegatee_for
  delegatee_for-block ctx (some r) s = refl
  delegatee_for-block ctx none s = elim (Bool-cases (ctx.tx.from =b ctx.tx.to)) [
    | inl to_self ↦ rw (to_self, delegatee_for) refl
    | inr other ↦ rw (other, delegatee_for) refl
  ]

  delegate-block :
      (ctx : TrxContext) (r : Ref) (power : Result Int64) (s : StakeCtrler Tree)
      → ctx.exec ≡ false
      → block_state (delegate codec trees ctx r power s).1 ≡ block_state s
  unfolding delegate
  delegate-block ctx r (err x) s e = refl
  delegate-block ctx r (ok p) s e = set_delegatee-block r ctx.exec _ e

  unstaked_after-block :
      (ctx : TrxContext) (r : Ref) (refund : Int64) (d : Delegatee) (s : StakeCtrler Tree)
      → ctx.exec ≡ false
      → block_state (unstaked_after codec trees ctx r refund d s).1 ≡ block_state s
  unfolding unstaked_after
  unstaked_after-block ctx r refund d s e =
      let s₁ = freeze_all-block (remaining d).0 refund ctx.exec s e in
      either_outcome _ _ _ (del_delegatee-block r ctx.exec _ e ∙ s₁)
        (set_delegatee-block r ctx.exec _ e ∙ s₁)

  unstake-block :
      (gov : GovParams) (ctx : TrxContext) (r : Ref) (found : Result Stake) (s : StakeCtrler Tree)
      → ctx.exec ≡ false
      → block_state (unstake codec trees gov ctx r found s).1 ≡ block_state s
  unfolding unstake
  unstake-block gov ctx r (err x) s e = refl
  unstake-block gov ctx r (ok s0) s e =
      let refund = add64 ctx.height gov.lazy_reward_blocks in
      let d = (del_stake s0.tx_hash (s.heap.cell r.id)).1 in
      let given = refunded_at refund s0 in
      unstaked_after-block ctx r refund d (set_frozen codec trees given ctx.exec s) e
      ∙ set_frozen-block given ctx.exec s e

  exe_unstaking-block :
      (gov : GovParams) (ctx : TrxContext) (s : StakeCtrler Tree)
      → ctx.exec ≡ false
      → block_state (exe_unstaking codec trees gov ctx s).1 ≡ block_state s
  unfolding exe_unstaking
  exe_unstaking-block gov ctx s e =
      let looked = get_delegatee-block ctx.tx.to ctx.exec s e in
      let (res, s₁) = get_delegatee codec trees ctx.tx.to ctx.exec s in
      elim (Result-cases res) [
        | inr (x, missing) ↦ rw (missing, exe_unstaking) looked
        | inl (r, found) ↦
            rw (found, exe_unstaking)
              (unstake-block gov ctx r
                  (check_unstaking codec trees ctx.tx.from ctx.tx.payload (s₁.heap.cell r.id)) s₁ e
                ∙ looked)
      ]

module _ {Tree : Type 0} (codec : StakeCodec) (acct_codec : AcctCodec) (trees : TreeOps Tree)
    (sign : UInt256 → Sign) where
  abbrev Out : Type 0
  Out = Result (Unit {0}) × StakeCtrler Tree × AcctCtrler Tree

  staked_after-block :
      (ctx : TrxContext) (r : Ref) (s : StakeCtrler Tree) (accts : AcctCtrler Tree)
      (out : Result (Unit {0}) × Heap)
      → ctx.exec ≡ false
      → block_state (staked_after codec acct_codec trees sign ctx r s accts out).1 ≡ block_state s
  unfolding staked_after
  staked_after-block ctx r s accts (err x, h) e = refl
  staked_after-block ctx r s accts (ok _, h) e = delegate-block codec trees ctx r _ s e

  stake_to-block :
      (ctx : TrxContext) (accts : AcctCtrler Tree) (chosen : Result Ref × StakeCtrler Tree)
      → ctx.exec ≡ false
      → block_state (stake_to codec acct_codec trees sign ctx accts chosen).1 ≡ block_state chosen.1
  unfolding stake_to
  stake_to-block ctx accts (err x, s) e = refl
  stake_to-block ctx accts (ok r, s) e = staked_after-block ctx r s accts _ e

  exe_staking-block :
      (ctx : TrxContext) (s : StakeCtrler Tree) (accts : AcctCtrler Tree)
      → ctx.exec ≡ false
      → block_state (exe_staking codec acct_codec trees sign ctx s accts).1 ≡ block_state s
  unfolding exe_staking
  exe_staking-block ctx s accts e =
      let (found, s₁) = get_delegatee codec trees ctx.tx.to ctx.exec s in
      let looked = get_delegatee-block codec trees ctx.tx.to ctx.exec s e in
      elim (Result-cases (or_nil codec trees found)) [
        | inr (x, failed) ↦ rw (failed, exe_staking) looked
        | inl (known, found) ↦
            rw (found, exe_staking)
              (stake_to-block ctx accts (delegatee_for codec trees ctx known s₁) e
                ∙ delegatee_for-block codec trees ctx known s₁
                ∙ looked)
      ]

  withdrawn_after-block :
      (ctx : TrxContext) (req_amt : UInt256) (taken : Result Reward) (s : StakeCtrler Tree)
      (accts : AcctCtrler Tree)
      → ctx.exec ≡ false
      → block_state (withdrawn_after codec acct_codec trees sign ctx req_amt taken s accts).1
        ≡ block_state s
  unfolding withdrawn_after
  withdrawn_after-block ctx req_amt (err x) s accts e = refl
  withdrawn_after-block ctx req_amt (ok rwd) s accts e =
      let set = set_reward-block codec trees rwd ctx.exec s e in
      elim (Result-cases
        (Ctrler.reward acct_codec trees sign ctx.sender.addr req_amt ctx.exec accts).0) [
          | inl (_, paid) ↦ rw (paid, withdrawn_after) set
          | inr (x, failed) ↦
              rw (failed, withdrawn_after)
                (cancel_set_reward-block codec trees _ ctx.exec _ e ∙ set)
        ]

  withdraw_from-block :
      (ctx : TrxContext) (req_amt : UInt256) (found : Result Reward × StakeCtrler Tree)
      (accts : AcctCtrler Tree)
      → ctx.exec ≡ false
      → block_state (withdraw_from codec acct_codec trees sign ctx req_amt found accts).1
        ≡ block_state found.1
  unfolding withdraw_from
  withdraw_from-block ctx req_amt (err x, s) accts e = refl
  withdraw_from-block ctx req_amt (ok rwd, s) accts e =
      withdrawn_after-block ctx req_amt _ s accts e

  exe_withdraw-block :
      (ctx : TrxContext) (payload : Option TrxPayload) (s : StakeCtrler Tree)
      (accts : AcctCtrler Tree)
      → ctx.tx.payload ≡ payload
      → ctx.exec ≡ false
      → block_state (exe_withdraw codec acct_codec trees sign ctx s accts).1 ≡ block_state s
  unfolding exe_withdraw
  exe_withdraw-block ctx none s accts has e = rw (has, exe_withdraw) refl
  exe_withdraw-block ctx (some (withdraw_reward req_amt)) s accts has e =
      rw (has, exe_withdraw)
        (withdraw_from-block ctx req_amt _ accts e
          ∙ get_reward-block codec trees ctx.tx.from ctx.exec s e)
  exe_withdraw-block ctx (some _) s accts has e = rw (has, exe_withdraw) refl

  by_type :
      (gov : GovParams) (ctx : TrxContext) (type : TrxType) (s : StakeCtrler Tree)
      (accts : AcctCtrler Tree)
      → ctx.tx.type ≡ type
      → ctx.exec ≡ false
      → block_state (execute_trx codec acct_codec trees sign gov ctx s accts).1 ≡ block_state s
  unfolding execute_trx
  by_type gov ctx staking s accts is e = rw (is, execute_trx) (exe_staking-block ctx s accts e)
  by_type gov ctx unstaking s accts is e =
      rw (is, execute_trx) (exe_unstaking-block codec trees gov ctx s e)
  by_type gov ctx withdraw s accts is e =
      rw (is, execute_trx) (exe_withdraw-block ctx ctx.tx.payload s accts refl e)
  by_type gov ctx _ s accts is e = rw (is, execute_trx) refl

  -- An execution outside a block, whatever its transaction and its outcome, leaves the caches of the
  -- block that is being executed, and the trees of the three ledgers, as they were.
  pub execute_trx-block :
      (gov : GovParams) (ctx : TrxContext) (s : StakeCtrler Tree) (accts : AcctCtrler Tree)
      → ctx.exec ≡ false
      → block_state (execute_trx codec acct_codec trees sign gov ctx s accts).1 ≡ block_state s
  execute_trx-block gov ctx s accts e = by_type gov ctx ctx.tx.type s accts refl e
