-- ===== src/Node/App/Delivering.antt =====
-- `CheckTx` and `deliverTxSync` of node/app.go. Events and texts of errors are left out.
use rigo_go.Base.{ℕ, Bool, true, false, none, some}
use rigo_go.Base.Bytes.{Bytes}
use rigo_go.Base.Words.{UInt256, add64, mul256}
use rigo_go.Base.Result.{Result, ok, err, XError, panicked}
use rigo_go.Gov.Params.{GovParams}
use rigo_go.Trx.{TrxContext}
use rigo_go.Node.Executor.{Ran, execute_sync}
use rigo_go.Node.BlockContext.{BlockContext, add_fee, add_txs_cnt}
use rigo_go.Node.App.{Ctrlers, AppWorld, Env, RigoApp, handlers_of, context_of}

-- `ResponseCheckTx` and `ResponseDeliverTx`
pub data Response : Type 0 where
  failed : XError → Response
  done : ℕ → ℕ → Response

-- A panic is not answered.
abbrev pub answered : XError → Result Response
answered panicked = err panicked
answered e = ok (failed e)

-- `GasToFee`
unfoldable pub gas_to_fee : ℕ → UInt256 → UInt256
unfolding mul256
gas_to_fee gas price = mul256 gas price

-- The fee of a transaction that was executed, at the gas price in force.
unfoldable pub fee_for : ℕ → GovParams → Result UInt256
unfolding gas_to_fee
fee_for gas params = elim params.gas_price [
  | none ↦ err panicked
  | some price ↦ ok (gas_to_fee gas price)
]

module _ {Tree V Db : Type 0} (env : Env Tree V Db) where
  -- `ExecuteSync` with the controllers as its handlers
  unfoldable pub execute : TrxContext → AppWorld Tree V → Ran Tree (Ctrlers Tree V)
  unfolding handlers_of execute_sync
  execute ctx w = elim (handlers_of env w.rest.gov.gov_params) [
    | err e ↦ record { result = err e; ctx = ctx; world = w }
    | ok handlers ↦ execute_sync env.acct_codec env.trees env.sign handlers ctx w
  ]

  -- the answer of `CheckTx`
  unfoldable pub checked :
      Ran Tree (Ctrlers Tree V) → RigoApp Tree V Db → Result Response × RigoApp Tree V Db
  checked ran app = (
    elim ran.result [ err e ↦ answered e | ok _ ↦ ok (done ran.ctx.tx.gas ran.ctx.gas_used) ],
    record app { world = ran.world },
  )

  -- `CheckTx`: a transaction that comes to the mempool is executed on the caches for checking; one
  -- that is checked again is let through.
  unfoldable pub check_tx : Bool → Bytes → RigoApp Tree V Db → Result Response × RigoApp Tree V Db
  unfolding context_of add64 execute checked
  check_tx false bz app = (ok (done 0 0), app)
  check_tx true bz app = elim app.last_block_ctx [
    | none ↦ (err panicked, app)
    | some last ↦ elim (env.decode_trx bz) [
      | err e ↦ (answered e, app)
      | ok tx ↦
          let (r, accts) =
            context_of env tx (env.hash_trx bz) (add64 last.block_info.height 1) false
              app.world.accts in
          let app' = record app { world = record app.world { accts = accts } } in
          elim r [ err e ↦ (answered e, app') | ok ctx ↦ checked (execute ctx app'.world) app' ]
    ]
  ]

  -- What follows `ExecuteSync` in a block: the fee of a transaction that was executed is added to
  -- those of the block.
  unfoldable pub charged_fee :
      Ran Tree (Ctrlers Tree V)
      → BlockContext
      → RigoApp Tree V Db
      → Result Response × RigoApp Tree V Db
  unfolding add_fee fee_for
  charged_fee ran next app =
      let app' = record app { world = ran.world } in
      elim ran.result [
        | err e ↦ (answered e, app')
        | ok _ ↦ elim (fee_for ran.ctx.gas_used ran.world.rest.gov.gov_params) [
          | err e ↦ (err e, app')
          | ok fee ↦ (
            ok (done ran.ctx.tx.gas ran.ctx.gas_used),
            record app' { next_block_ctx = some (add_fee fee next) },
          )
        ]
      ]

  -- A context that `NewTrxContext` has made is executed. Without one its answer panics: it reads
  -- `txctx.Tx` of a nil `txctx`.
  unfoldable pub delivered :
      Result TrxContext → BlockContext → RigoApp Tree V Db → Result Response × RigoApp Tree V Db
  unfolding charged_fee execute
  delivered (err e) next app = (err panicked, app)
  delivered (ok ctx) next app = charged_fee (execute ctx app.world) next app

  -- `deliverTxSync`: the transaction is counted once it is decoded.
  unfoldable pub deliver_tx : Bytes → RigoApp Tree V Db → Result Response × RigoApp Tree V Db
  unfolding context_of add_txs_cnt delivered
  deliver_tx bz app = elim app.next_block_ctx [
    | none ↦ (err panicked, app)
    | some next ↦ elim (env.decode_trx bz) [
      | err e ↦ delivered (err e) next app
      | ok tx ↦
          let counted = add_txs_cnt 1 next in
          let (r, accts) =
            context_of env tx (env.hash_trx bz) next.block_info.height true app.world.accts in
          delivered r counted (record app {
            next_block_ctx = some counted;
            world = record app.world { accts = accts };
          })
    ]
  ]
