-- ===== src/Node/Laws/Fees.antt =====
-- The fees of a block: what a transfer costs its sender is what node/app.go adds to the block's fees.
use rigo_go.Base.{◌≡◌, none, ap, arith}
use rigo_go.Base.Words.{UInt256}
use rigo_go.Ledger.Tree.{TreeOps}
use rigo_go.Account.Struct.{Sign}
use rigo_go.Account.Codec.{AcctCodec}
use rigo_go.Account.Heap.{AcctRef}
use rigo_go.Trx.{TrxContext}
use rigo_go.Node.Executor.{
  World, Ran, Handlers, common_validation0, validate_by_type, validate_trx, run_by_type, run_trx,
  post_run_trx, post_by, charge, charge_after, execute_sync, and_then,
}
use rigo_go.Node.Laws.Transfer.{transfer_to}

module _ {Tree W : Type 0} (codec : AcctCodec) (trees : TreeOps Tree) (sign : UInt256 → Sign) where
  -- the charge of a transaction leaves the other controllers alone
  post_run_trx-rest :
      (ctx : TrxContext) (w : World Tree W)
      → (post_run_trx codec trees sign ctx w).world.rest ≡ w.rest
  unfolding post_run_trx post_by charge charge_after
  post_run_trx-rest ctx w = ground arith

  run_trx-rest :
      (handlers : Handlers Tree W) (ctx : TrxContext) (w : World Tree W) (to : AcctRef)
      → (w.accts.heap.cell to.id).code ≡ none
      → (run_trx codec trees sign handlers (transfer_to to ctx) w).world.rest ≡ w.rest
  unfolding run_trx run_by_type
  run_trx-rest handlers ctx w to no_code = ground (arith, no_code)

  -- the validation of a transfer only writes the sender's public key
  validate_trx-context :
      (handlers : Handlers Tree W) (ctx : TrxContext) (w : World Tree W) (to : AcctRef)
      → let ran = validate_trx codec trees sign handlers (transfer_to to ctx) w in
        (ran.world ≡ w) × (ran.ctx ≡ transfer_to to ran.ctx)
  unfolding validate_trx common_validation0 validate_by_type
  validate_trx-context handlers ctx w to = ground arith

  and_then-rest :
      (ran : Ran Tree W) (next : TrxContext → World Tree W → Ran Tree W) (rest : W)
      → ran.world.rest ≡ rest
      → (next ran.ctx ran.world).world.rest ≡ rest
      → (and_then codec trees sign ran next).world.rest ≡ rest
  and_then-rest ran next rest here there = ground (arith, here, there)

  pub execute_sync-rest :
      (handlers : Handlers Tree W) (ctx : TrxContext) (w : World Tree W) (to : AcctRef)
      → (w.accts.heap.cell to.id).code ≡ none
      → (execute_sync codec trees sign handlers (transfer_to to ctx) w).world.rest ≡ w.rest
  unfolding execute_sync
  execute_sync-rest handlers ctx w to no_code =
      let ran = validate_trx codec trees sign handlers (transfer_to to ctx) w in
      let (same, context) = validate_trx-context handlers ctx w to in
      let run : (run_trx codec trees sign handlers ran.ctx ran.world).world.rest ≡ w.rest =
        rw (same, context) (run_trx-rest handlers ran.ctx w to no_code) in
      and_then-rest ran (run_trx codec trees sign handlers) w.rest
        (ap (λ (x : World Tree W). x.rest) same) run
