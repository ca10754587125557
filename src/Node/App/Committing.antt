-- ===== src/Node/App/Committing.antt =====
-- `Commit` and `Info` of node/app.go: what is kept of a block, and what a node that is started
-- reports to the consensus engine.
use rigo_go.Base.{ℕ, not, ◌||◌, ◌==◌, none, some, [], ◌++◌, if◌then◌else◌}
use rigo_go.Base.Bytes.{Bytes}
use rigo_go.Base.Words.{Int64}
use rigo_go.Base.Result.{Result, ok, err, panicked}
use rigo_go.Account.Ctrler.{commit_accounts}
use rigo_go.Gov.Ctrler.Committing as GovCommitting
use rigo_go.Stake.Ctrler.Closing as StakeClosing
use rigo_go.Node.BlockContext.{BlockContext, new_block_context, set_app_hash}
use rigo_go.Node.MetaDb.{
  last_block_context, last_block_height, last_block_app_hash, put_last_block_context,
  put_last_block_height,
}
use rigo_go.Node.App.{AppWorld, Env, RigoApp}
use rigo_go.Node.App.Blocks.{with_gov, with_stake}

-- What the four commits returned: the concatenation of their hashes, and their version.
pub record Versions : Type 0 where
  pub hashes : Bytes
  pub version : ℕ

-- the versions must be the same
unfoldable pub same_versions : Bytes × ℕ → Bytes × ℕ → Bytes × ℕ → Bytes × ℕ → Result Versions
same_versions (h0, v0) (h1, v1) (h2, v2) (h3, v3) =
    if not (v0 == v1) || not (v1 == v2) || not (v2 == v3)
    then err panicked
    else ok (record { hashes = h0 ++ h1 ++ h2 ++ h3; version = v0 })

module _ {Tree V Db : Type 0} (env : Env Tree V Db) where
  -- the four `Commit`s: governance, accounts, staking, EVM
  unfoldable pub commit_all : AppWorld Tree V → Result Versions × AppWorld Tree V
  unfolding GovCommitting.commit commit_accounts StakeClosing.commit same_versions
  commit_all w =
      let (r0, gov) = GovCommitting.commit env.hash env.gov_codec env.trees w.rest.gov in
      let w₁ = with_gov env gov w in
      elim r0 [
        | err e ↦ (err panicked, w₁)
        | ok c0 ↦
            let (r1, accts) = commit_accounts env.acct_codec env.trees env.sign w₁.accts in
            let w₂ = record w₁ { accts = accts } in
            elim r1 [
              | err e ↦ (err panicked, w₂)
              | ok c1 ↦
                  let (r2, stake) =
                    StakeClosing.commit env.hash env.stake_codec env.trees w₂.rest.stake in
                  let w₃ = with_stake env stake w₂ in
                  elim r2 [
                    | err e ↦ (err panicked, w₃)
                    | ok c2 ↦
                        let (r3, w₄) = env.vm.commit w₃ in
                        (elim r3 [ err e ↦ err panicked | ok c3 ↦ same_versions c0 c1 c2 c3 ], w₄)
                  ]
            ]
      ]

  -- The context of the block and the version are put into the database, whose errors are passed
  -- over, and the context becomes the last one.
  unfoldable pub kept_block :
      BlockContext
      → RigoApp Tree V Db
      → Result Versions × AppWorld Tree V
      → Result Bytes × RigoApp Tree V Db
  unfolding set_app_hash put_last_block_context put_last_block_height
  kept_block c app (err e, w) = (err e, record app { world = w })
  kept_block c app (ok v, w) =
      let app_hash = env.hash v.hashes in
      let c' = set_app_hash app_hash c in
      let m = (put_last_block_context env.db env.block_codec c' app.meta_db).1 in
      let m' = (put_last_block_height env.db v.version m).1 in
      (
        ok app_hash,
        record { last_block_ctx = some c'; next_block_ctx = none; meta_db = m'; world = w },
      )

  unfoldable pub commit : RigoApp Tree V Db → Result Bytes × RigoApp Tree V Db
  unfolding commit_all kept_block
  commit app = elim app.next_block_ctx [
    | none ↦ (err panicked, app)
    | some c ↦ kept_block c app (commit_all app.world)
  ]

  -- a context of a chain whose database has none
  abbrev pub legacy_context : Int64 → Bytes → BlockContext
  legacy_context height hash =
      set_app_hash hash (
        new_block_context
          (record { height = height; proposer = none; votes = []; byzantines = [] }))

  -- `Info`: the height and the hash of the last block
  unfoldable pub info : RigoApp Tree V Db → Result (Int64 × Bytes) × RigoApp Tree V Db
  unfolding new_block_context set_app_hash last_block_context last_block_height last_block_app_hash
  info app =
      let (found, m) = last_block_context env.db env.block_codec app.meta_db in
      elim found [
        | some c ↦ (
          ok (c.block_info.height, c.app_hash),
          record app { last_block_ctx = some c; meta_db = m },
        )
        | none ↦
            let (r, m₁) = last_block_height env.db m in
            let (hash, m₂) = last_block_app_hash env.db m₁ in
            elim r [
              | err e ↦ (err e, record app { last_block_ctx = none; meta_db = m₁ })
              | ok height ↦
                  let c = legacy_context height (elim hash [ none ↦ [] | some bz ↦ bz ]) in
                  (ok (height, c.app_hash), record app { last_block_ctx = some c; meta_db = m₂ })
            ]
      ]
