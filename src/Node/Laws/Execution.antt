-- ===== src/Node/Laws/Execution.antt =====
-- `ExecuteSync` of node/trx_executor.go on a transfer: the validation is enough for the run.
use rigo_go.Base.{
  ℕ, ◌+◌, ◌-◌, ◌*◌, ◌%◌, ◌^◌, ◌≡◌, ◌≢◌, ◌≤◌, ◌<◌, false, ◌==◌, ltb, if◌then◌else◌, none, arith,
  refl, ap, sym, ◌∙◌, inl, inr,
}
use rigo_go.Base.Words.{UInt256, add64}
use rigo_go.Base.Result.{ok, err, Result-cases}
use rigo_go.Ledger.Tree.{TreeOps}
use rigo_go.Account.Struct.{Sign, is_neg}
use rigo_go.Account.Codec.{AcctCodec}
use rigo_go.Account.Heap.{AcctRef}
use rigo_go.Account.Laws.Moves.{balance_at}
use rigo_go.Trx.{TrxContext}
use rigo_go.Node.Executor.{
  World, Ran, Handlers, fee_of, common_validation0, common_validation1, validate_by_type,
  validate_trx, run_trx, execute_sync, and_then,
}
use rigo_go.Node.Laws.Validation.{common_validation_lem, validated0, mul_bound}
use rigo_go.Node.Laws.Transfer.{transfer_to, run_trx-transfer}

module _ {Tree W : Type 0} (handlers : Handlers Tree W) (sign : UInt256 → Sign) where
  -- the first validation changes nothing of the context but the sender's public key
  common_validation0-ctx :
      (ctx ctx' : TrxContext)
      → common_validation0 handlers sign ctx ≡ ok ctx'
      → ctx' ≡ record ctx { sender_pub_key = ctx'.sender_pub_key }
  unfolding common_validation0
  common_validation0-ctx ctx ctx' e = ground (arith, e)

module _ {Tree W : Type 0} (codec : AcctCodec) (trees : TreeOps Tree) (sign : UInt256 → Sign) where
  -- what a validation that succeeded has gone through
  pub validated :
      (handlers : Handlers Tree W) (ctx : TrxContext) (w : World Tree W) (to : AcctRef)
      → let c = transfer_to to ctx in
        (validate_trx codec trees sign handlers c w).result ≡ ok tt
        → (c' : TrxContext) × (common_validation0 handlers sign c ≡ ok c')
          × (common_validation1 c'.tx (w.accts.heap.cell c'.sender.id) ≡ ok tt)
          × (validate_trx codec trees sign handlers c w
              ≡ validate_by_type codec trees sign handlers c' w)
  unfolding validate_trx
  validated handlers ctx w to passed =
      let c = transfer_to to ctx in
      elim (Result-cases (common_validation0 handlers sign c)) [
        | inr (x, e) ↦
            let refused : (validate_trx codec trees sign handlers c w).result ≡ err x =
              rw (e, validate_trx) refl in
            absurd cc
        | inl (c', e) ↦
            elim (Result-cases (common_validation1 c'.tx (w.accts.heap.cell c'.sender.id))) [
              | inr (x, e') ↦
                  let refused : (validate_trx codec trees sign handlers c w).result ≡ err x =
                    rw (e, e', validate_trx) refl in
                  absurd cc
              | inl (u, e') ↦ (c', e, e', rw (e, e', validate_trx) refl)
            ]
      ]

  -- When `Sign` is negative from 2^255 on and the gas price is below 2^192: a transfer to another
  -- object, one without code, that is validated is executed. Its sender, whose balance is below
  -- 2^256, pays the amount and the fee and has the next nonce, the receiver gets the amount modulo
  -- 2^256, every other balance stays, and the used gas is the transaction's.
  pub execute_sync-transfer :
      (handlers : Handlers Tree W) (ctx : TrxContext) (w : World Tree W) (to : AcctRef) (i : ℕ)
      → ((x : UInt256) → is_neg (sign x) ≡ ltb (2 ^ 255 - 1) x)
      → handlers.gas_price < 2 ^ 192
      → (w.accts.heap.cell to.id).code ≡ none
      → ctx.sender.id ≢ to.id
      → balance_at ctx.sender.id w.accts.heap < 2 ^ 256
      → (validate_trx codec trees sign handlers (transfer_to to ctx) w).result ≡ ok tt
      → let old = w.accts.heap.cell ctx.sender.id in
        let ran = execute_sync codec trees sign handlers (transfer_to to ctx) w in
        (ran.result ≡ ok tt)
        × (ran.ctx.gas_used ≡ ctx.tx.gas)
        × ((ran.world.accts.heap.cell ctx.sender.id).nonce ≡ add64 old.nonce 1)
        × (balance_at i ran.world.accts.heap ≡ (
            if i == ctx.sender.id
            then old.balance - (ctx.tx.amount + ctx.tx.gas_price * ctx.tx.gas)
            else if i == to.id
            then (balance_at to.id w.accts.heap + ctx.tx.amount) % 2 ^ 256
            else balance_at i w.accts.heap))
  unfolding execute_sync validate_by_type
  execute_sync-transfer handlers ctx w to i is_sign price no_code apart word passed =
      let c = transfer_to to ctx in
      let (c', e0, e1, through) = validated handlers ctx w to passed in
      let ctx' : TrxContext = record ctx { sender_pub_key = c'.sender_pub_key } in
      let same : c' ≡ transfer_to to ctx' = common_validation0-ctx handlers sign c c' e0 in
      let (amount, gas, same_price, tx, sender) = validated0 handlers sign c c' e0 in
      let fee =
        mul_bound ctx.tx.gas_price ctx.tx.gas (2 ^ 192 - 1) (2 ^ 63 - 1)
          (omega (arith, price, same_price)) (omega (arith, gas)) in
      let exact : fee_of ctx.tx ≡ ctx.tx.gas_price * ctx.tx.gas = omega (arith, fee) in
      let pos : is_neg (sign (fee_of ctx.tx)) ≡ false =
        ground (arith, is_sign (fee_of ctx.tx), exact, fee) in
      let e1' : common_validation1 c'.tx (w.accts.heap.cell ctx.sender.id) ≡ ok tt =
        ap (λ (r : AcctRef). common_validation1 c'.tx (w.accts.heap.cell r.id)) (sym sender) ∙ e1 in
      let enough =
        common_validation_lem handlers sign c c' (w.accts.heap.cell ctx.sender.id) is_sign price e0
          e1' in
      let covered : ctx.tx.amount + fee_of ctx.tx ≤ balance_at ctx.sender.id w.accts.heap =
        omega (arith, exact, enough.0) in
      let valid : validate_trx codec trees sign handlers c w
          ≡ record { result = ok tt; ctx = transfer_to to ctx'; world = w } =
        through ∙ ap (λ (x : TrxContext). validate_by_type codec trees sign handlers x w) same in
      let run : execute_sync codec trees sign handlers c w
          ≡ run_trx codec trees sign handlers (transfer_to to ctx') w =
        ap (λ (r : Ran Tree W). and_then codec trees sign r (run_trx codec trees sign handlers))
          valid in
      let ran =
        run_trx-transfer codec trees sign handlers ctx' w to i no_code apart amount pos word
          covered in
      rw run (ran.0, ran.1, ran.2, ran.3 ∙ ground (arith, exact))
