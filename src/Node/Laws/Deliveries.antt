-- ===== src/Node/Laws/Deliveries.antt =====
-- What a transaction of a block does to the balances and to the block's fees (`deliverTxSync` of
-- node/app.go).
use rigo_go.Base.{
  ℕ, ◌+◌, ◌-◌, ◌*◌, ◌^◌, ◌≡◌, ◌≢◌, ◌≤◌, ◌<◌, ltb, none, some, refl, sym, ap, ◌∙◌, arith,
}
use rigo_go.Base.Words.{UInt256, mul256}
use rigo_go.Base.Result.{Result, ok}
use rigo_go.Account.Struct.{is_neg}
use rigo_go.Account.Heap.{AcctRef}
use rigo_go.Account.Laws.Moves.{balance_at, total, total-paid}
use rigo_go.Trx.{TrxContext}
use rigo_go.Gov.Params.{GovParams, min_trx_fee}
use rigo_go.Node.Executor.{Ran, Handlers, validate_trx, execute_sync, common_validation1}
use rigo_go.Node.BlockContext.{BlockContext, add_fee}
use rigo_go.Node.App.{Ctrlers, AppWorld, Env, RigoApp, handlers_of}
use rigo_go.Node.App.Delivering.{
  Response, done, gas_to_fee, fee_for, charged_fee, delivered, execute,
}
use rigo_go.Node.Laws.Validation.{common_validation_lem, validated0}
use rigo_go.Node.Laws.Transfer.{transfer_to}
use rigo_go.Node.Laws.Execution.{validated, execute_sync-transfer}
use rigo_go.Node.Laws.Fees.{execute_sync-rest}

module _ {Tree V Db : Type 0} (env : Env Tree V Db) where
  -- a validation of a transfer by the application's handlers that succeeds
  abbrev pub Passes : Handlers Tree (Ctrlers Tree V) → TrxContext → AppWorld Tree V → Type 0
  Passes handlers c w = (validate_trx env.acct_codec env.trees env.sign handlers c w).result ≡ ok tt

  -- its sender affords the amount and the fee, at the price of the handlers
  afforded :
      (handlers : Handlers Tree (Ctrlers Tree V)) (ctx : TrxContext) (w : AppWorld Tree V)
      (to : AcctRef)
      → ((x : UInt256) → is_neg (env.sign x) ≡ ltb (2 ^ 255 - 1) x)
      → handlers.gas_price < 2 ^ 192
      → Passes handlers (transfer_to to ctx) w
      → (ctx.tx.amount + ctx.tx.gas_price * ctx.tx.gas ≤ balance_at ctx.sender.id w.accts.heap)
        × (ctx.tx.gas_price ≡ handlers.gas_price)
  afforded handlers ctx w to is_sign price passed =
      let c = transfer_to to ctx in
      let (c', e0, e1, through) =
        validated env.acct_codec env.trees env.sign handlers ctx w to passed in
      let (amount, gas, same_price, tx, sender) = validated0 handlers env.sign c c' e0 in
      let e1' : common_validation1 c'.tx (w.accts.heap.cell ctx.sender.id) ≡ ok tt =
        ap (λ (r : AcctRef). common_validation1 c'.tx (w.accts.heap.cell r.id)) (sym sender) ∙ e1 in
      let enough =
        common_validation_lem handlers env.sign c c' (w.accts.heap.cell ctx.sender.id) is_sign price
          e0 e1' in
      (enough.0, same_price)

  handlers_of-price :
      (params : GovParams) (handlers : Handlers Tree (Ctrlers Tree V))
      → handlers_of env params ≡ ok handlers
      → params.gas_price ≡ some handlers.gas_price
  unfolding handlers_of min_trx_fee
  handlers_of-price params handlers e = ground (arith, e)

  fee_for-price :
      (gas : ℕ) (params : GovParams) (price : UInt256)
      → params.gas_price ≡ some price
      → fee_for gas params ≡ ok (mul256 gas price)
  unfolding fee_for gas_to_fee
  fee_for-price gas params price e = rw (e, fee_for) refl

  -- what an execution that succeeds adds to the fees
  charged_fee-done :
      (ran : Ran Tree (Ctrlers Tree V)) (next : BlockContext) (a : RigoApp Tree V Db)
      (fee : UInt256)
      → ran.result ≡ ok tt
      → fee_for ran.ctx.gas_used ran.world.rest.gov.gov_params ≡ ok fee
      → charged_fee env ran next a ≡ (
        ok (done ran.ctx.tx.gas ran.ctx.gas_used),
        record a { world = ran.world; next_block_ctx = some (add_fee fee next) },
      )
  unfolding charged_fee
  charged_fee-done ran next a fee e e' = rw (e, e', charged_fee) refl

  -- When `Sign` is negative from 2^255 on and the gas price is below 2^192: a transfer of a block to
  -- another object, one without code, that passes the validation is answered as done, and the
  -- balances of the objects with the fees of the block together stay what they were: what the
  -- sender pays is what the receiver gets and what is added to the fees. The sender's balance and
  -- the sums that the receiver and the block come to are below 2^256.
  pub delivered-conserves :
      (handlers : Handlers Tree (Ctrlers Tree V)) (ctx : TrxContext) (next : BlockContext)
      (a : RigoApp Tree V Db) (to : AcctRef) (n : ℕ)
      → ((x : UInt256) → is_neg (env.sign x) ≡ ltb (2 ^ 255 - 1) x)
      → handlers_of env a.world.rest.gov.gov_params ≡ ok handlers
      → handlers.gas_price < 2 ^ 192
      → (a.world.accts.heap.cell to.id).code ≡ none
      → ctx.sender.id ≢ to.id
      → ctx.sender.id < n
      → to.id < n
      → balance_at ctx.sender.id a.world.accts.heap < 2 ^ 256
      → balance_at to.id a.world.accts.heap + ctx.tx.amount < 2 ^ 256
      → next.fee_sum + handlers.gas_price * ctx.tx.gas < 2 ^ 256
      → Passes handlers (transfer_to to ctx) a.world
      → let out = delivered env (ok (transfer_to to ctx)) next a in
        (wanted : ℕ) × (next' : BlockContext) × (out.0 ≡ ok (done wanted ctx.tx.gas))
        × (out.1.next_block_ctx ≡ some next')
        × (total n out.1.world.accts.heap + next'.fee_sum
            ≡ total n a.world.accts.heap + next.fee_sum)
  unfolding delivered execute add_fee fee_for gas_to_fee
  delivered-conserves handlers ctx next a to n is_sign is_handlers price no_code apart p q word room
        sum passed =
      let c = transfer_to to ctx in
      let w = a.world in
      let ran = execute_sync env.acct_codec env.trees env.sign handlers c w in
      let run : execute env c w ≡ ran = rw (is_handlers, execute) refl in
      let moved = λ (i : ℕ).
        execute_sync-transfer env.acct_codec env.trees env.sign handlers ctx w to i is_sign price
          no_code apart word passed in
      let (enough, same_price) = afforded handlers ctx w to is_sign price passed in
      let rest : ran.world.rest ≡ w.rest =
        execute_sync-rest env.acct_codec env.trees env.sign handlers ctx w to no_code in
      let at_price = handlers_of-price w.rest.gov.gov_params handlers is_handlers in
      let fee = mul256 ctx.tx.gas handlers.gas_price in
      let asked : fee_for ran.ctx.gas_used ran.world.rest.gov.gov_params ≡ ok fee =
        ap (λ (r : Ctrlers Tree V). fee_for ran.ctx.gas_used r.gov.gov_params) rest
        ∙ fee_for-price ran.ctx.gas_used w.rest.gov.gov_params handlers.gas_price at_price
        ∙ ap (λ (g : ℕ). ok (mul256 g handlers.gas_price)) (moved 0).1 in
      let cost : ctx.tx.gas * handlers.gas_price ≡ ctx.tx.gas_price * ctx.tx.gas =
        rw same_price (grind arith) in
      let price_cost : handlers.gas_price * ctx.tx.gas ≡ ctx.tx.gas * handlers.gas_price =
        grind arith in
      let exact : fee ≡ ctx.tx.gas_price * ctx.tx.gas = omega (arith, cost, price_cost, sum) in
      let paid : total n ran.world.accts.heap + ctx.tx.gas_price * ctx.tx.gas
          ≡ total n w.accts.heap =
        total-paid n ctx.sender.id to.id ctx.tx.amount (ctx.tx.gas_price * ctx.tx.gas) w.accts.heap
          ran.world.accts.heap p q apart enough room (λ i. (moved i).3) in
      let out : delivered env (ok c) next a ≡ (
        ok (done ran.ctx.tx.gas ran.ctx.gas_used),
        record a { world = ran.world; next_block_ctx = some (add_fee fee next) },
      ) =
        ap (λ (r : Ran Tree (Ctrlers Tree V)). charged_fee env r next a) run
        ∙ charged_fee-done ran next a fee (moved 0).0 asked in
      (
        ran.ctx.tx.gas,
        add_fee fee next,
        ap (λ (x : Result Response × RigoApp Tree V Db). x.0) out
            ∙ ap (λ (g : ℕ). ok (done ran.ctx.tx.gas g)) (moved 0).1,
        ap (λ (x : Result Response × RigoApp Tree V Db). x.1.next_block_ctx) out,
        ap
              (λ (x : Result Response × RigoApp Tree V Db).
                total n x.1.world.accts.heap + (add_fee fee next).fee_sum)
              out
            ∙ omega (arith, paid, exact, cost, price_cost, sum),
      )
