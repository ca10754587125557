-- ===== src/Stake/Laws/Ctrler/Kept.antt =====
-- The begin of a block does not touch the delegatees that it chose (ctrlers/stake/ctrler.go), once
-- they were chosen: the punishments and the rewards keep the list.
use rigo_go.Base.{
  ◌≡◌, inl, inr, Bool, true, false, Bool-cases, List, [], ◌∷◌, refl, ◌∙◌, ◌==◌, if◌then◌else◌,
}
use rigo_go.Base.Bytes.{Bytes}
use rigo_go.Base.Words.{Int64, UInt256, sub64, add64, add256, mul256}
use rigo_go.Base.Result.{Result, ok, err, Result-cases}
use rigo_go.Base.Store.{Ref, Store, assign}
use rigo_go.Ledger.Tree.{TreeOps}
use rigo_go.Ledger.Simple
use rigo_go.Ledger.Simple.{SimpleLedger, to_ledger_key}
use rigo_go.Ledger.Finality.{immutable_finality_at}
use rigo_go.Gov.Params.{GovParams, reward_per_power_of}
use rigo_go.Gov.Ctrler.Blocks.{Evidence, Punishment}
use rigo_go.Stake.Delegatee.{
  Delegatee, del_all_stakes, process_not_signed_block, get_not_signed_block_count,
}
use rigo_go.Stake.Item.{Stake}
use rigo_go.Stake.Reward.{Reward, issue}
use rigo_go.Stake.Ctrler.{StakeCodec, StakeCtrler, delegatee_items, get_delegatee, get_reward}
use rigo_go.Stake.Ctrler.Executing.{
  refunded_at, set_delegatee, del_delegatee, set_reward, freeze_all, set_frozen,
}
use rigo_go.Stake.Ctrler.Blocks.{punish_after, punish, punish_all}
use rigo_go.Stake.Ctrler.Rewarding.{
  VoteInfo, or_new, issue_to, reward_after, reward_to, signed_after, stop, unsigned_after,
  count_vote, count_votes, reward_block, height_of_power, window_start,
}

-- the list that is kept
abbrev chosen : {Tree : Type 0} → StakeCtrler Tree → List Delegatee
chosen s = s.all_delegatees

either_chosen :
    {Tree : Type 0} {ds : List Delegatee} (test : Bool) (x y : StakeCtrler Tree)
    → chosen x ≡ ds
    → chosen y ≡ ds
    → chosen (if test then x else y) ≡ ds
either_chosen true x y p q = p
either_chosen false x y p q = q

module _ {Tree : Type 0} (codec : StakeCodec) (trees : TreeOps Tree) where
  freeze_all-chosen :
      (ss : List Stake) (height : Int64) (s : StakeCtrler Tree)
      → chosen (freeze_all codec trees ss height true s) ≡ chosen s
  unfolding freeze_all set_frozen
  freeze_all-chosen [] height s = refl
  freeze_all-chosen (s0 ∷ ss) height s =
      freeze_all-chosen ss height (set_frozen codec trees (refunded_at height s0) true s)

  punish_after-chosen :
      (ratio : Int64) (found : Result Ref × StakeCtrler Tree)
      → chosen (punish_after codec trees ratio found).1 ≡ chosen found.1
  unfolding punish_after set_delegatee
  punish_after-chosen ratio (err x, s) = refl
  punish_after-chosen ratio (ok r, s) = refl

  punish-chosen :
      (addr : Bytes) (ratio : Int64) (s : StakeCtrler Tree)
      → chosen (punish codec trees addr ratio s).1 ≡ chosen s
  unfolding punish get_delegatee
  punish-chosen addr ratio s = punish_after-chosen ratio (get_delegatee codec trees addr true s)

  pub punish_all-chosen :
      (ratio : Int64) (byzantines : List Evidence) (s : StakeCtrler Tree)
      → chosen (punish_all codec trees ratio byzantines s).1 ≡ chosen s
  unfolding punish_all
  punish_all-chosen ratio [] s = refl
  punish_all-chosen ratio (evi ∷ byzantines) s =
      let (r, s₁) = punish codec trees evi.address ratio s in
      let rest = punish_all-chosen ratio byzantines s₁ ∙ punish-chosen evi.address ratio s in
      elim (Result-cases r) [
        | inr (x, e) ↦ rw (e, punish_all) rest
        | inl (n, e) ↦ rw (e, punish_all) rest
      ]

  issue_to-chosen :
      (gov : GovParams) (height : Int64) (s0 : Stake) (r : Reward) (s : StakeCtrler Tree)
      → chosen (issue_to codec trees gov height s0 r s).1 ≡ chosen s
  unfolding issue_to set_reward
  issue_to-chosen gov height s0 r s = elim (Result-cases (reward_per_power_of gov)) [
    | inr (x, e) ↦ rw (e, issue_to) refl
    | inl (n, e) ↦ elim (Result-cases (issue (mul256 s0.power n) height r)) [
      | inr (x, d) ↦ rw (e, d, issue_to) refl
      | inl (r', d) ↦ rw (e, d, issue_to) refl
    ]
  ]

  reward_after-chosen :
      (gov : GovParams) (height : Int64) (s0 : Stake) (found : Result Reward × StakeCtrler Tree)
      → chosen (reward_after codec trees gov height s0 found).1 ≡ chosen found.1
  unfolding reward_after
  reward_after-chosen gov height s0 (found, s) =
      elim (Result-cases (or_new codec trees s0.from found)) [
        | inr (x, e) ↦ rw (e, reward_after) refl
        | inl (r, e) ↦ rw (e, reward_after) (issue_to-chosen gov height s0 r s)
      ]

  reward_to-chosen :
      (gov : GovParams) (height : Int64) (ss : List Stake) (sum : UInt256) (s : StakeCtrler Tree)
      → chosen (reward_to codec trees gov height ss sum s).1 ≡ chosen s
  unfolding reward_to get_reward
  reward_to-chosen gov height [] sum s = refl
  reward_to-chosen gov height (s0 ∷ ss) sum s =
      let found = get_reward codec trees s0.from true s in
      let (r, s') = reward_after codec trees gov height s0 found in
      let one = reward_after-chosen gov height s0 found in
      elim (Result-cases r) [
        | inr (x, e) ↦ rw (e, reward_to) one
        | inl (n, e) ↦ rw (e, reward_to) (reward_to-chosen gov height ss (add256 sum n) s' ∙ one)
      ]

  signed_after-chosen :
      (gov : GovParams) (height : Int64) (vote : VoteInfo) (s : StakeCtrler Tree)
      (found : Result Ref × SimpleLedger Tree Ref × Store Delegatee)
      → chosen (signed_after codec trees gov height vote s found).2 ≡ chosen s
  unfolding signed_after
  signed_after-chosen gov height vote s (err x, immu, h) = refl
  signed_after-chosen gov height vote s (ok r, immu, h) =
      elim (Bool-cases ((h.cell r.id).total_power == vote.power)) [
        | inr other ↦ rw (other, signed_after) refl
        | inl same ↦
            rw (same, signed_after)
              (reward_to-chosen gov height (h.cell r.id).stakes 0 (record s { heap = h }))
      ]

  stop-chosen :
      (gov : GovParams) (height : Int64) (r : Ref) (d : Delegatee) (s : StakeCtrler Tree)
      → chosen (stop codec trees gov height r d s) ≡ chosen s
  unfolding stop del_delegatee del_all_stakes
  stop-chosen gov height r d s =
      freeze_all-chosen d.stakes (add64 height gov.lazy_reward_blocks)
        (record s { heap = assign r.id (del_all_stakes d).1 s.heap })

  unsigned_after-chosen :
      (gov : GovParams) (height : Int64) (found : Result Ref × StakeCtrler Tree)
      → chosen (unsigned_after codec trees gov height found) ≡ chosen found.1
  unfolding unsigned_after set_delegatee
  unsigned_after-chosen gov height (err x, s) = refl
  unsigned_after-chosen gov height (ok r, s) =
      let d₁ = (process_not_signed_block (sub64 height 1) (s.heap.cell r.id)).1 in
      let d₂ = (get_not_signed_block_count (window_start gov height) (sub64 height 1) d₁).1 in
      let s₁ = set_delegatee codec trees r true (record s { heap = assign r.id d₂ s.heap }) in
      either_chosen _ (stop codec trees gov height r d₂ s₁) s₁ (stop-chosen gov height r d₂ s₁) refl

  count_vote-chosen :
      (gov : GovParams) (height : Int64) (vote : VoteInfo) (immu : SimpleLedger Tree Ref)
      (s : StakeCtrler Tree)
      → chosen (count_vote codec trees gov height vote immu s).2 ≡ chosen s
  unfolding count_vote get_delegatee
  count_vote-chosen gov height vote immu s = elim (Bool-cases vote.signed_last_block) [
    | inl signed ↦
        rw (signed, count_vote)
          (signed_after-chosen gov height vote s
            (Simple.get (delegatee_items codec) trees (to_ledger_key vote.address) immu s.heap))
    | inr unsigned ↦
        rw (unsigned, count_vote)
          (unsigned_after-chosen gov height (get_delegatee codec trees vote.address true s))
  ]

  count_votes-chosen :
      (gov : GovParams) (height : Int64) (votes : List VoteInfo) (sum : UInt256)
      (immu : SimpleLedger Tree Ref) (s : StakeCtrler Tree)
      → chosen (count_votes codec trees gov height votes sum immu s).1 ≡ chosen s
  unfolding count_votes
  count_votes-chosen gov height [] sum immu s = refl
  count_votes-chosen gov height (vote ∷ votes) sum immu s =
      let (r, immu', s') = count_vote codec trees gov height vote immu s in
      let one = count_vote-chosen gov height vote immu s in
      elim (Result-cases r) [
        | inr (x, e) ↦ rw (e, count_votes) one
        | inl (n, e) ↦
            rw (e, count_votes) (count_votes-chosen gov height votes (add256 sum n) immu' s' ∙ one)
      ]

  pub reward_block-chosen :
      (gov : GovParams) (height : Int64) (votes : List VoteInfo) (evts : List Punishment)
      (s : StakeCtrler Tree)
      → chosen (reward_block codec trees gov height votes evts s).1 ≡ chosen s
  unfolding reward_block
  reward_block-chosen gov height [] evts s = refl
  reward_block-chosen gov height (vote ∷ votes) evts s =
      elim (Result-cases (
        immutable_finality_at (delegatee_items codec) trees (height_of_power height)
          s.delegatee_ledger)) [
            | inr (x, e) ↦ rw (e, reward_block) refl
            | inl (immu, e) ↦
                rw (e, reward_block) (count_votes-chosen gov height (vote ∷ votes) 0 immu s)
          ]
