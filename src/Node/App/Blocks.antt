-- ===== src/Node/App/Blocks.antt =====
-- `BeginBlock` and `EndBlock` of node/app.go, over the controllers. An error of a controller is a
-- panic.
use rigo_go.Base.{not, ◌==◌, none, some, List, if◌then◌else◌}
use rigo_go.Base.Words.{add64}
use rigo_go.Base.Result.{Result, ok, err, panicked}
use rigo_go.Account.Ctrler
use rigo_go.Account.Ctrler.{AcctCtrler, commit_accounts}
use rigo_go.Gov.Ctrler.{GovCtrler}
use rigo_go.Gov.Ctrler.Blocks as GovBlocks
use rigo_go.Gov.Ctrler.Closing as GovClosing
use rigo_go.Stake.Ctrler.{StakeCtrler}
use rigo_go.Stake.Ctrler.Rewarding
use rigo_go.Stake.Ctrler.Closing
use rigo_go.Stake.Validators.{ValidatorUpdate}
use rigo_go.Node.BlockContext.{BlockInfo, BlockContext, new_block_context, set_val_updates}
use rigo_go.Node.App.{AppWorld, Env, RigoApp}

module _ {Tree V Db : Type 0} (env : Env Tree V Db) where
  abbrev pub with_gov : GovCtrler Tree → AppWorld Tree V → AppWorld Tree V
  with_gov s w = record w { rest = record w.rest { gov = s } }

  abbrev pub with_stake : StakeCtrler Tree → AppWorld Tree V → AppWorld Tree V
  with_stake s w = record w { rest = record w.rest { stake = s } }

  -- the three `BeginBlock`s: governance, staking, EVM
  unfoldable pub begin_all : BlockContext → AppWorld Tree V → Result (Unit {0}) × AppWorld Tree V
  unfolding GovBlocks.begin_block Rewarding.begin_block
  begin_all c w =
      let (r0, gov) =
        GovBlocks.begin_block env.gov_codec env.trees c.block_info.byzantines w.rest.gov in
      let w₁ = with_gov gov w in
      elim r0 [
        | err e ↦ (err panicked, w₁)
        | ok _ ↦
            let (r1, stake) =
              Rewarding.begin_block env.stake_codec env.trees gov.gov_params c.block_info.height
                c.block_info.byzantines c.block_info.votes w₁.rest.stake in
            let w₂ = with_stake stake w₁ in
            elim r1 [
              | err e ↦ (err panicked, w₂)
              | ok _ ↦
                  let (r2, w₃) = env.vm.begin_block c w₂ in
                  (elim r2 [ err e ↦ err panicked | ok _ ↦ ok tt ], w₃)
            ]
      ]

  unfoldable pub begin_block : BlockInfo → RigoApp Tree V Db → Result (Unit {0}) × RigoApp Tree V Db
  unfolding add64 new_block_context begin_all
  begin_block info app = elim app.last_block_ctx [
    | none ↦ (err panicked, app)
    | some last ↦
        let c = new_block_context info in
        let (r, w) = begin_all c app.world in
        if not (info.height == add64 last.block_info.height 1)
        then (err panicked, app)
        else (r, record app { next_block_ctx = some c; world = w })
  ]

  -- the four `EndBlock`s: governance, accounts, staking, EVM; staking tells the updates
  unfoldable pub end_all : BlockContext → AppWorld Tree V → Result BlockContext × AppWorld Tree V
  unfolding GovClosing.end_block Ctrler.end_block Closing.end_block set_val_updates
  end_all c w =
      let height = c.block_info.height in
      let (r0, gov) = GovClosing.end_block env.gov_codec env.trees height w.rest.gov in
      let w₁ = with_gov gov w in
      elim r0 [
        | err e ↦ (err panicked, w₁)
        | ok _ ↦
            let (r1, accts) =
              Ctrler.end_block env.acct_codec env.trees env.sign c.block_info.proposer c.fee_sum
                w₁.accts in
            let w₂ = record w₁ { accts = accts } in
            elim r1 [
              | err e ↦ (err panicked, w₂)
              | ok _ ↦
                  let (r2, stake, accts') =
                    Closing.end_block env.stake_codec env.acct_codec env.trees env.sign
                      gov.gov_params height w₂.rest.stake accts in
                  let w₃ = with_stake stake (record w₂ { accts = accts' }) in
                  elim r2 [
                    | err e ↦ (err panicked, w₃)
                    | ok updates ↦
                        let c' = set_val_updates updates c in
                        let (r3, w₄) = env.vm.end_block c' w₃ in
                        (elim r3 [ err e ↦ err panicked | ok _ ↦ ok c' ], w₄)
                  ]
            ]
      ]

  -- what `EndBlock` does with the outcome of the four
  unfoldable pub ended :
      RigoApp Tree V Db
      → Result BlockContext × AppWorld Tree V
      → Result (List ValidatorUpdate) × RigoApp Tree V Db
  ended app (err e, w) = (err e, record app { world = w })
  ended app (ok c, w) = (ok c.val_updates, record app { world = w; next_block_ctx = some c })

  unfoldable pub end_block : RigoApp Tree V Db → Result (List ValidatorUpdate) × RigoApp Tree V Db
  unfolding end_all ended
  end_block app = elim app.next_block_ctx [
    | none ↦ (err panicked, app)
    | some c ↦ ended app (end_all c app.world)
  ]
