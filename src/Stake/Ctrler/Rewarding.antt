-- ===== src/Stake/Ctrler/Rewarding.antt =====
-- `StakeCtrler` of ctrlers/stake/ctrler.go: the votes of the last block, and `BeginBlock`.
use rigo_go.Base.{Bool, true, not, ◌==◌, Option, none, some, List, [], ◌∷◌, if◌then◌else◌}
use rigo_go.Base.Bytes.{Bytes}
use rigo_go.Base.Words.{Int64, UInt256, add64, sub64, slt, add256, mul256}
use rigo_go.Base.Result.{Result, ok, err, not_found_result, panicked}
use rigo_go.Base.Store.{Ref, Store, assign}
use rigo_go.Ledger.Tree.{TreeOps}
use rigo_go.Ledger.Simple
use rigo_go.Ledger.Simple.{SimpleLedger, iterate_read_all_items, to_ledger_key}
use rigo_go.Ledger.Finality.{immutable_finality_at}
use rigo_go.Gov.Params.{GovParams, reward_per_power_of}
use rigo_go.Stake.Item.{Stake}
use rigo_go.Stake.Delegatee.{
  Delegatee, del_all_stakes, process_not_signed_block, get_not_signed_block_count,
}
use rigo_go.Stake.Reward.{Reward, new_reward, issue}
use rigo_go.Stake.Ctrler.{StakeCodec, StakeCtrler, delegatee_items, get_delegatee, get_reward}
use rigo_go.Stake.Ctrler.Executing.{set_delegatee, del_delegatee, set_reward, freeze_all}
use rigo_go.Gov.Ctrler.Blocks.{Evidence, Punishment}
use rigo_go.Stake.Ctrler.Blocks.{select_delegatees, punish_all}

-- `abcitypes.VoteInfo`
pub record VoteInfo : Type 0 where
  pub address : Bytes
  pub power : Int64
  pub signed_last_block : Bool

-- The events of `BeginBlock`: "punishment.stake", and "reward" with the issued amount.
pub record Begun : Type 0 where
  pub punished : List Punishment
  pub issued : UInt256

-- the window of the blocks that count, up to the height before
unfoldable pub window_start : GovParams → Int64 → Int64
unfolding sub64 slt
window_start gov height =
    let s = sub64 (sub64 height 1) gov.signed_blocks_window in if slt s 0 then 0 else s

-- `heightOfPower`
unfoldable pub height_of_power : Int64 → Int64
unfolding sub64 slt
height_of_power height = let h = sub64 height 4 in if slt h 0 then 1 else h

module _ {Tree : Type 0} (codec : StakeCodec) (trees : TreeOps Tree) where
  -- the reward of an address, a new one if there is none
  abbrev pub or_new : Bytes → Result Reward → Result Reward
  or_new addr (ok r) = ok r
  or_new addr (err e) = elim e [ not_found_result ↦ ok (new_reward addr) | x ↦ err x ]

  -- one round of `doRewardTo` with the reward: what it issues
  unfoldable pub issue_to :
      GovParams → Int64 → Stake → Reward → StakeCtrler Tree → Result UInt256 × StakeCtrler Tree
  unfolding mul256 issue set_reward reward_per_power_of
  issue_to gov height s0 r s = elim (reward_per_power_of gov) [
    | err e ↦ (err e, s)
    | ok per_power ↦
        let rwd = mul256 s0.power per_power in
        elim (issue rwd height r) [
          | err e ↦ (err e, s)
          | ok r' ↦ (ok rwd, set_reward codec trees r' true s)
        ]
  ]

  -- an error of the look for the reward is passed over
  unfoldable pub reward_after :
      GovParams
      → Int64
      → Stake
      → Result Reward × StakeCtrler Tree
      → Result UInt256 × StakeCtrler Tree
  unfolding issue_to new_reward
  reward_after gov height s0 (found, s) = elim (or_new s0.from found) [
    | err e ↦ (elim e [ panicked ↦ err panicked | _ ↦ ok 0 ], s)
    | ok r ↦ issue_to gov height s0 r s
  ]

  -- `doRewardTo`
  unfoldable pub reward_to :
      GovParams
      → Int64
      → List Stake
      → UInt256
      → StakeCtrler Tree
      → Result UInt256 × StakeCtrler Tree
  unfolding get_reward reward_after add256
  reward_to gov height [] sum s = (ok sum, s)
  reward_to gov height (s0 ∷ ss) sum s =
      let (r, s') = reward_after gov height s0 (get_reward codec trees s0.from true s) in
      elim r [ err e ↦ (err e, s') | ok rwd ↦ reward_to gov height ss (add256 sum rwd) s' ]

  -- a validator that signed, in the ledger at the height of its power: what is issued
  unfoldable pub signed_after :
      GovParams
      → Int64
      → VoteInfo
      → StakeCtrler Tree
      → Result Ref × SimpleLedger Tree Ref × Store Delegatee
      → Result UInt256 × SimpleLedger Tree Ref × StakeCtrler Tree
  unfolding reward_to
  signed_after gov height vote s (err e, immu, h) = (ok 0, immu, record s { heap = h })
  signed_after gov height vote s (ok r, immu, h) =
      let d = h.cell r.id in
      if not (d.total_power == vote.power)
      then (ok 0, immu, record s { heap = h })
      else (let (issued, s') = reward_to gov height d.stakes 0 (record s { heap = h }) in
          (issued, immu, s'))

  -- `DelAllStakes` of a validator that is stopped, and what becomes of its stakes
  unfoldable pub stop : GovParams → Int64 → Ref → Delegatee → StakeCtrler Tree → StakeCtrler Tree
  unfolding del_all_stakes assign freeze_all add64 del_delegatee
  stop gov height r d s =
      let (stakes, d') = del_all_stakes d in
      let frozen =
        freeze_all codec trees stakes (add64 height gov.lazy_reward_blocks) true
          (record s { heap = assign r.id d' s.heap }) in
      (del_delegatee codec trees r true frozen).1

  -- a validator that did not sign
  unfoldable pub unsigned_after :
      GovParams → Int64 → Result Ref × StakeCtrler Tree → StakeCtrler Tree
  unfolding window_start process_not_signed_block set_delegatee get_not_signed_block_count sub64 slt
      assign stop
  unsigned_after gov height (err e, s) = s
  unsigned_after gov height (ok r, s) =
      let (_, d) = process_not_signed_block (sub64 height 1) (s.heap.cell r.id) in
      let (not_signed, d') =
        get_not_signed_block_count (window_start gov height) (sub64 height 1) d in
      let s₁ = set_delegatee codec trees r true (record s { heap = assign r.id d' s.heap }) in
      if slt (sub64 gov.signed_blocks_window not_signed) gov.min_signed_blocks
      then stop gov height r d' s₁
      else s₁

  -- one round of the loop over the votes: what it issues
  unfoldable pub count_vote :
      GovParams
      → Int64
      → VoteInfo
      → SimpleLedger Tree Ref
      → StakeCtrler Tree
      → Result UInt256 × SimpleLedger Tree Ref × StakeCtrler Tree
  unfolding Simple.get to_ledger_key signed_after get_delegatee unsigned_after
  count_vote gov height vote immu s =
      if vote.signed_last_block
      then signed_after gov height vote s
          (Simple.get (delegatee_items codec) trees (to_ledger_key vote.address) immu s.heap)
      else (ok 0, immu, unsigned_after gov height (get_delegatee codec trees vote.address true s))

  unfoldable pub count_votes :
      GovParams
      → Int64
      → List VoteInfo
      → UInt256
      → SimpleLedger Tree Ref
      → StakeCtrler Tree
      → Result UInt256 × StakeCtrler Tree
  unfolding count_vote add256
  count_votes gov height [] sum immu s = (ok sum, s)
  count_votes gov height (vote ∷ votes) sum immu s =
      let (r, immu', s') = count_vote gov height vote immu s in
      elim r [
        | err e ↦ (err e, s')
        | ok issued ↦ count_votes gov height votes (add256 sum issued) immu' s'
      ]

  -- the last part of `BeginBlock`; without votes there are no events
  unfoldable pub reward_block :
      GovParams
      → Int64
      → List VoteInfo
      → List Punishment
      → StakeCtrler Tree
      → Result (Option Begun) × StakeCtrler Tree
  unfolding height_of_power immutable_finality_at count_votes
  reward_block gov height [] evts s = (ok none, s)
  reward_block gov height (vote ∷ votes) evts s =
      elim (immutable_finality_at (delegatee_items codec) trees (height_of_power height)
        s.delegatee_ledger) [
          | err e ↦ (err e, s)
          | ok immu ↦
              let (r, s') = count_votes gov height (vote ∷ votes) 0 immu s in
              (
                elim r [
                  | ok issued ↦ ok (some (record { punished = evts; issued = issued }))
                  | err e ↦ err e
                ],
                s',
              )
        ]

  unfoldable pub begin_block :
      GovParams
      → Int64
      → List Evidence
      → List VoteInfo
      → StakeCtrler Tree
      → Result (Option Begun) × StakeCtrler Tree
  unfolding select_delegatees punish_all reward_block
  begin_block gov height byzantines votes s =
      let (r, s₁) = select_delegatees codec trees gov s in
      elim r [
        | err e ↦ (err e, s₁)
        | ok _ ↦
            let (evts, s₂) = punish_all codec trees gov.slash_ratio byzantines s₁ in
            reward_block gov height votes evts s₂
      ]
