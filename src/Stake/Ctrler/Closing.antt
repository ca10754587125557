-- ===== src/Stake/Ctrler/Closing.antt =====
-- `StakeCtrler` of ctrlers/stake/ctrler.go: the end of a block, the commit and the queries.
use rigo_go.Base.{
  ℕ, ◌%◌, true, not, ◌||◌, ◌==◌, Option, none, some, List, [], ◌∷◌, ◌++◌, if◌then◌else◌,
}
use rigo_go.Base.Bytes.{Bytes}
use rigo_go.Base.Words.{Int64, UInt256, add64, sub64, slt, is_negative, add256}
use rigo_go.Base.Result.{Result, ok, err, commit_error, panicked}
use rigo_go.Base.Store.{Ref, Store}
use rigo_go.Ledger.Tree.{TreeOps}
use rigo_go.Ledger.Simple
use rigo_go.Ledger.Simple.{iterate_read_all_items, to_ledger_key}
use rigo_go.Ledger.Finality
use rigo_go.Ledger.Finality.{FinalityLedger, del_finality}
use rigo_go.Account.Struct.{Sign}
use rigo_go.Account.Codec.{AcctCodec}
use rigo_go.Account.Ctrler
use rigo_go.Account.Ctrler.{AcctCtrler}
use rigo_go.Gov.Params.{GovParams}
use rigo_go.Stake.Item.{Stake, power_to_amount}
use rigo_go.Stake.Delegatee.{Delegatee}
use rigo_go.Stake.Reward.{Reward}
use rigo_go.Stake.Validators.{ValidatorUpdate, update_validators}
use rigo_go.Stake.Ctrler.{
  StakeCodec, StakeCtrler, delegatee_items, stake_items, reward_items, get_delegatee, get_reward,
}

-- What `unfreezingStakes` changes while it iterates.
pub record Unfreezing (Tree : Type 0) : Type 0 where
  pub frozen_ledger : FinalityLedger Tree Stake
  pub accts : AcctCtrler Tree

module _ {Tree : Type 0} (codec : StakeCodec) (acct_codec : AcctCodec) (trees : TreeOps Tree)
    (sign : UInt256 → Sign) where
  -- what follows the payment of a stake that is due
  unfoldable pub unfroze :
      Stake
      → Unfreezing Tree
      → Result (Unit {0}) × AcctCtrler Tree
      → Result (Unit {0}) × Unfreezing Tree × Unit {0}
  unfolding del_finality to_ledger_key
  unfroze s0 u (err e, accts) = (err e, record u { accts = accts }, tt)
  unfroze s0 u (ok _, accts) =
      let (_, l, _) =
        del_finality (stake_items codec) trees (to_ledger_key s0.tx_hash) u.frozen_ledger tt in
      (ok tt, record { frozen_ledger = l; accts = accts }, tt)

  -- the callback of `unfreezingStakes`
  unfoldable pub unfreeze_one :
      Int64 → Stake → Unfreezing Tree × Unit {0} → Result (Unit {0}) × Unfreezing Tree × Unit {0}
  unfolding slt Ctrler.reward power_to_amount unfroze
  unfreeze_one height s0 (u, _) =
      if slt height s0.refund_height
      then (ok tt, u, tt)
      else unfroze s0 u
          (Ctrler.reward acct_codec trees sign s0.from (power_to_amount s0.power) true u.accts)

  unfoldable pub unfreezing_stakes :
      Int64
      → StakeCtrler Tree
      → AcctCtrler Tree
      → Result (Unit {0}) × StakeCtrler Tree × AcctCtrler Tree
  unfolding iterate_read_all_items unfreeze_one
  unfreezing_stakes height s accts =
      let (r, u, _) =
        iterate_read_all_items (stake_items codec) trees (unfreeze_one height)
          s.frozen_ledger.simple (record { frozen_ledger = s.frozen_ledger; accts = accts }, tt) in
      (r, record s { frozen_ledger = u.frozen_ledger }, u.accts)

  -- `updateValidators`: a negative number of validators is an index out of range
  unfoldable pub report_validators :
      Int64 → StakeCtrler Tree → Result (List ValidatorUpdate) × StakeCtrler Tree
  unfolding update_validators
  report_validators max_vals s =
      if is_negative max_vals
      then (err panicked, s)
      else (let (updates, chosen) = update_validators max_vals s.all_delegatees s.last_validators in
          (ok updates, record s { last_validators = chosen }))

  -- `EndBlock`: the updates are those of the block's context
  unfoldable pub end_block :
      GovParams
      → Int64
      → StakeCtrler Tree
      → AcctCtrler Tree
      → Result (List ValidatorUpdate) × StakeCtrler Tree × AcctCtrler Tree
  unfolding unfreezing_stakes report_validators
  end_block gov height s accts =
      let (r, s₁, accts') = unfreezing_stakes height s accts in
      elim r [
        | err e ↦ (err e, s₁, accts')
        | ok _ ↦
            let (updates, s₂) = report_validators gov.max_validator_cnt s₁ in (updates, s₂, accts')
      ]

-- `rwdLedgUpInterval`
abbrev pub reward_interval : ℕ
reward_interval = 10

-- `crypto.DefaultHash`, of the concatenation of its arguments, is `hash`.
module _ {Tree : Type 0} (hash : Bytes → Bytes) (codec : StakeCodec) (trees : TreeOps Tree) where
  -- What follows the three commits: the hash of the rewards is renewed at every tenth version.
  -- `PutLastRewardHash` keeps it in a file.
  unfoldable pub committed :
      Bytes × ℕ → Bytes × ℕ → Bytes × ℕ → StakeCtrler Tree → Result (Bytes × ℕ) × StakeCtrler Tree
  committed (h0, v0) (h1, v1) (h2, v2) s =
      let rwd_hash = if v0 % reward_interval == 0 then h2 else s.last_rwd_hash in
      if not (v0 == v1) || not (v1 == v2)
      then (err commit_error, s)
      else (ok (hash (h0 ++ h1 ++ rwd_hash), v0), record s { last_rwd_hash = rwd_hash })

  unfoldable pub commit : StakeCtrler Tree → Result (Bytes × ℕ) × StakeCtrler Tree
  unfolding Finality.commit committed
  commit s =
      let (r0, l0) = Finality.commit (delegatee_items codec) trees s.delegatee_ledger s.heap in
      let s₁ = record s { delegatee_ledger = l0 } in
      elim r0 [
        | err e ↦ (err e, s₁)
        | ok c0 ↦
            let (r1, l1) = Finality.commit (stake_items codec) trees s.frozen_ledger tt in
            let s₂ = record s₁ { frozen_ledger = l1 } in
            elim r1 [
              | err e ↦ (err e, s₂)
              | ok c1 ↦
                  let (r2, l2) = Finality.commit (reward_items codec) trees s.reward_ledger tt in
                  let s₃ = record s₂ { reward_ledger = l2 } in
                  elim r2 [ err e ↦ (err e, s₃) | ok c2 ↦ committed c0 c1 c2 s₃ ]
            ]
      ]

  -- `Validators`, and the sum of their powers
  unfoldable pub validators_of : List Delegatee → Int64 → List (Bytes × Int64) × Int64
  unfolding add64
  validators_of [] total = ([], total)
  validators_of (v ∷ vs) total =
      let (rest, sum) = validators_of vs (add64 total v.total_power) in
      ((v.addr, v.total_power) ∷ rest, sum)

  -- `Delegatee`
  unfoldable pub delegatee_of : Bytes → StakeCtrler Tree → Option Delegatee × StakeCtrler Tree
  unfolding get_delegatee
  delegatee_of addr s =
      let (r, s') = get_delegatee codec trees addr true s in
      (elim r [ ok r ↦ some (s'.heap.cell r.id) | err e ↦ none ], s')

  -- `TotalPowerOf`, `SelfPowerOf` and `DelegatedPowerOf`
  unfoldable pub total_power_of : Bytes → StakeCtrler Tree → Int64 × StakeCtrler Tree
  unfolding delegatee_of
  total_power_of addr s =
      let (d, s') = delegatee_of addr s in (elim d [ some d ↦ d.total_power | none ↦ 0 ], s')

  unfoldable pub self_power_of : Bytes → StakeCtrler Tree → Int64 × StakeCtrler Tree
  unfolding delegatee_of
  self_power_of addr s =
      let (d, s') = delegatee_of addr s in (elim d [ some d ↦ d.self_power | none ↦ 0 ], s')

  unfoldable pub delegated_power_of : Bytes → StakeCtrler Tree → Int64 × StakeCtrler Tree
  unfolding delegatee_of sub64
  delegated_power_of addr s =
      let (d, s') = delegatee_of addr s in
      (elim d [ some d ↦ sub64 d.total_power d.self_power | none ↦ 0 ], s')

  abbrev sum_amount :
      Ref → UInt256 × Store Delegatee → Result (Unit {0}) × UInt256 × Store Delegatee
  sum_amount r (sum, h) = (ok tt, add256 sum (power_to_amount (h.cell r.id).total_power), h)

  -- `ReadTotalAmount` and `ReadTotalPower`; an error of the iteration is passed over
  unfoldable pub read_total_amount : StakeCtrler Tree → UInt256
  unfolding iterate_read_all_items add256 power_to_amount
  read_total_amount s =
      (iterate_read_all_items (delegatee_items codec) trees sum_amount s.delegatee_ledger.simple
        (0, s.heap)).1

  abbrev sum_power : Ref → Int64 × Store Delegatee → Result (Unit {0}) × Int64 × Store Delegatee
  sum_power r (sum, h) = (ok tt, add64 sum (h.cell r.id).total_power, h)

  unfoldable pub read_total_power : StakeCtrler Tree → Int64
  unfolding iterate_read_all_items add64
  read_total_power s =
      (iterate_read_all_items (delegatee_items codec) trees sum_power s.delegatee_ledger.simple
        (0, s.heap)).1

  abbrev listed : Stake → List Stake × Unit {0} → Result (Unit {0}) × List Stake × Unit {0}
  listed s0 (ss, _) = (ok tt, ss ++ s0 ∷ [], tt)

  unfoldable pub read_frozen_stakes : StakeCtrler Tree → List Stake
  unfolding iterate_read_all_items
  read_frozen_stakes s =
      (iterate_read_all_items (stake_items codec) trees listed s.frozen_ledger.simple ([], tt)).1

  -- `RewardOf`
  unfoldable pub reward_of : Bytes → StakeCtrler Tree → Option Reward × StakeCtrler Tree
  unfolding get_reward
  reward_of addr s =
      let (r, s') = get_reward codec trees addr true s in
      (elim r [ ok rwd ↦ some rwd | err e ↦ none ], s')

  unfoldable pub read_reward_of : Bytes → StakeCtrler Tree → Option Reward
  unfolding Simple.read to_ledger_key
  read_reward_of addr s =
      elim (Simple.read (reward_items codec) trees (to_ledger_key addr) s.reward_ledger.simple tt) [
        | ok (rwd, _) ↦ some rwd
        | err e ↦ none
      ]
