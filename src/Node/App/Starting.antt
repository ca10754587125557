-- ===== src/Node/App/Starting.antt =====
-- `InitChain` of node/app.go: the parameters, the accounts and the validators of a new chain. The
-- genesis document is decoded and hashed by arguments.
use rigo_go.Base.{true, List, [], ◌∷◌}
use rigo_go.Base.Bytes.{Bytes}
use rigo_go.Base.Lists.{replicate}
use rigo_go.Base.Words.{Int64}
use rigo_go.Base.Result.{Result, ok, err, panicked}
use rigo_go.Account.Ctrler
use rigo_go.Account.Ctrler.{AcctCtrler, AssetHolder, find_or_new_account}
use rigo_go.Gov.Params.{GovParams}
use rigo_go.Gov.Ctrler.Blocks as GovBlocks
use rigo_go.Stake.Item.{new_stake_with_power}
use rigo_go.Stake.Ctrler.Blocks as StakeBlocks
use rigo_go.Stake.Ctrler.Blocks.{InitStake}
use rigo_go.Node.MetaDb.{put_chain_id}
use rigo_go.Node.App.{AppWorld, Env, RigoApp}
use rigo_go.Node.App.Blocks.{with_gov, with_stake}

-- `GenesisAppState`, with its hash
pub record AppState : Type 0 where
  pub gov_params : GovParams
  pub asset_holders : List AssetHolder
  pub hash : Result Bytes

-- `RequestInitChain`: the validators by public key and power
pub record InitRequest : Type 0 where
  pub chain_id : Bytes
  pub app_state : Bytes
  pub validators : List (Bytes × Int64)

-- `tmjson.Unmarshal` of the state, and `PubBytes2Addr`
pub record GenesisOps : Type 0 where
  pub unmarshal : Bytes → Result AppState
  pub pub_to_addr : Bytes → Result Bytes

module _ {Tree V Db : Type 0} (env : Env Tree V Db) (ops : GenesisOps) where
  abbrev init_stake : Bytes → Bytes → Int64 → InitStake
  init_stake keys addr power = record {
    pub_keys = keys;
    stakes = new_stake_with_power addr addr power 1 (replicate 32 0) ∷ [];
  }

  -- each validator has a stake of its own, and an account
  unfoldable pub init_validators :
      List (Bytes × Int64) → AcctCtrler Tree → Result (List InitStake) × AcctCtrler Tree
  unfolding new_stake_with_power find_or_new_account
  init_validators [] s = (ok [], s)
  init_validators ((keys, power) ∷ vals) s = elim (ops.pub_to_addr keys) [
    | err e ↦ (err panicked, s)
    | ok addr ↦
        let (_, s₁) = find_or_new_account env.acct_codec env.trees env.sign addr true s in
        let (rest, s₂) = init_validators vals s₁ in
        (elim rest [ err e ↦ err e | ok stakes ↦ ok (init_stake keys addr power ∷ stakes) ], s₂)
  ]

  -- what follows the decoding of the state
  unfoldable pub init_state :
      AppState → List (Bytes × Int64) → AppWorld Tree V → Result (Unit {0}) × AppWorld Tree V
  unfolding GovBlocks.init_ledger Ctrler.init_ledger StakeBlocks.init_ledger init_validators
  init_state st vals w =
      let gov = GovBlocks.init_ledger env.gov_codec env.trees st.gov_params w.rest.gov in
      let accts = Ctrler.init_ledger env.acct_codec env.trees env.sign st.asset_holders w.accts in
      let (r, accts') = init_validators vals accts in
      let w' = with_gov env gov (record w { accts = accts' }) in
      elim r [
        | err e ↦ (err e, w')
        | ok stakes ↦
            let stake = StakeBlocks.init_ledger env.stake_codec env.trees stakes w'.rest.stake in
            (ok tt, with_stake env stake w')
      ]

  -- the answer is the hash of the genesis state; the error of `PutChainID` is passed over
  unfoldable pub init_chain : InitRequest → RigoApp Tree V Db → Result Bytes × RigoApp Tree V Db
  unfolding put_chain_id init_state
  init_chain req app = elim req.chain_id [
    | [] ↦ (err panicked, app)
    | _ ∷ _ ↦
        let app' = record app { meta_db = (put_chain_id env.db req.chain_id app.meta_db).1 } in
        elim (ops.unmarshal req.app_state) [
          | err e ↦ (err panicked, app')
          | ok st ↦ elim st.hash [
            | err e ↦ (err panicked, app')
            | ok hash ↦
                let (r, w) = init_state st req.validators app'.world in
                (elim r [ err e ↦ err e | ok _ ↦ ok hash ], record app' { world = w })
          ]
        ]
  ]
