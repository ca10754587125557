-- ===== src/Node/Laws/Transfer.antt =====
-- A transfer that node/trx_executor.go has validated is carried out and charged.
use rigo_go.Base.{
  ℕ, ◌+◌, ◌-◌, ◌%◌, ◌^◌, ◌≡◌, ◌≢◌, ◌≤◌, ◌<◌, Bool, true, false, ◌==◌, if◌then◌else◌, Option, none,
  some, arith, ap, ◌∙◌,
}
use rigo_go.Base.Bytes.{Bytes}
use rigo_go.Base.Words.{UInt256, add64}
use rigo_go.Base.Result.{Result, ok}
use rigo_go.Ledger.Tree.{TreeOps}
use rigo_go.Account.Struct.{Sign, is_neg}
use rigo_go.Account.Codec.{AcctCodec}
use rigo_go.Account.Heap.{AcctRef, Heap, move}
use rigo_go.Account.Ctrler
use rigo_go.Account.Ctrler.{
  AcctCtrler, set_account_committable, set_receiver, execute_after, execute_on_heap,
}
use rigo_go.Account.Laws.Moves.{balance_at, move_outcome, move_balances}
use rigo_go.Trx.{TrxContext, transfer}
use rigo_go.Node.Executor.{
  World, Ran, Handlers, fee_of, charge, post_run_trx, run_by_type, run_trx, accounts_execute,
  receiver_has_code, run_transfer, and_then, post_by,
}
use rigo_go.Node.Laws.Charging.{execute_after-heap, charged_lem, charge_lem}

-- The context of a transfer to an account.
abbrev pub transfer_to : AcctRef → TrxContext → TrxContext
transfer_to to ctx = record ctx { tx = record ctx.tx { type = transfer }; receiver = some to }

moved_lem :
    (sign : UInt256 → Sign) (ctx : TrxContext) (to : AcctRef) (h : Heap) (j : ℕ)
    → is_neg (sign ctx.tx.amount) ≡ false
    → ctx.tx.amount ≤ balance_at ctx.sender.id h
    → let m = move sign ctx.sender to ctx.tx.amount h in
      (m ≡ (ok tt, m.1))
      × ((m.1.cell j).code ≡ (h.cell j).code)
      × ((m.1.cell j).nonce ≡ (h.cell j).nonce)
unfolding move
moved_lem sign ctx to h j pos enough =
    let m = move sign ctx.sender to ctx.tx.amount h in
    let done : m.0 ≡ ok tt = ground (arith, move_outcome sign ctx.sender to ctx.tx.amount h) in
    (ap (λ (r : Result (Unit {0})). (r, m.1)) done, ground arith, ground arith)

module _ {Tree W : Type 0} (codec : AcctCodec) (trees : TreeOps Tree) (sign : UInt256 → Sign) where
  executed_lem :
      (handlers : Handlers Tree W) (ctx : TrxContext) (w : World Tree W) (to : AcctRef)
      → (w.accts.heap.cell to.id).code ≡ none
      → is_neg (sign ctx.tx.amount) ≡ false
      → ctx.tx.amount ≤ balance_at ctx.sender.id w.accts.heap
      → let c = transfer_to to ctx in
        let h = (move sign ctx.sender to ctx.tx.amount w.accts.heap).1 in
        (s : AcctCtrler Tree) × (run_by_type codec trees sign handlers c w
          ≡ record { result = ok tt; ctx = c; world = record w { accts = s } })
        × (s.heap ≡ h)
  unfolding run_by_type Ctrler.execute_trx
  executed_lem handlers ctx w to no_code pos enough =
      let c = transfer_to to ctx in
      let moved = moved_lem sign ctx to w.accts.heap to.id pos enough in
      let h = (move sign ctx.sender to ctx.tx.amount w.accts.heap).1 in
      let has_code : receiver_has_code c w.accts.heap ≡ ok false =
        ap (λ (x : Option Bytes). ok (elim x as (λ _. Bool) [ none ↦ false | some _ ↦ true ]))
          no_code in
      let executed : Ctrler.execute_trx codec trees sign c w.accts
          ≡ execute_after codec trees sign c w.accts (ok tt, h) =
        ap (execute_after codec trees sign c w.accts) moved.0 in
      let after = execute_after-heap codec trees sign c w.accts h in
      let s = (execute_after codec trees sign c w.accts (ok tt, h)).1 in
      let run : run_by_type codec trees sign handlers c w ≡ accounts_execute codec trees sign c w =
        ap (run_transfer codec trees sign handlers c w) has_code in
      let left : accounts_execute codec trees sign c w ≡ record {
        result = (execute_after codec trees sign c w.accts (ok tt, h)).0;
        ctx = c;
        world = record w { accts = s };
      } =
        ap
          (λ (r : Result (Unit {0}) × AcctCtrler Tree). record {
            result = r.0;
            ctx = c;
            world = record w { accts = r.1 };
          })
          executed in
      let right : Path (Ran Tree W)
          (record {
            result = (execute_after codec trees sign c w.accts (ok tt, h)).0;
            ctx = c;
            world = record w { accts = s };
          })
          (record { result = ok tt; ctx = c; world = record w { accts = s } }) =
        ap
          (λ (r : Result (Unit {0})). record {
            result = r;
            ctx = c;
            world = record w { accts = s };
          })
          after.0 in
      (s, run ∙ left ∙ right, after.1)

  -- A run of a transfer to another object, one without code, by a sender whose balance covers the
  -- amount and the fee succeeds: the sender's balance goes down by both, its nonce goes up by one,
  -- the receiver's balance goes up by the amount modulo 2^256, every other balance stays, and the
  -- used gas is the transaction's. The amount and the fee are not negative to `Sign`.
  pub run_trx-transfer :
      (handlers : Handlers Tree W) (ctx : TrxContext) (w : World Tree W) (to : AcctRef) (i : ℕ)
      → (w.accts.heap.cell to.id).code ≡ none
      → ctx.sender.id ≢ to.id
      → is_neg (sign ctx.tx.amount) ≡ false
      → is_neg (sign (fee_of ctx.tx)) ≡ false
      → balance_at ctx.sender.id w.accts.heap < 2 ^ 256
      → ctx.tx.amount + fee_of ctx.tx ≤ balance_at ctx.sender.id w.accts.heap
      → let old = w.accts.heap.cell ctx.sender.id in
        let ran = run_trx codec trees sign handlers (transfer_to to ctx) w in
        (ran.result ≡ ok tt)
        × (ran.ctx.gas_used ≡ ctx.tx.gas)
        × ((ran.world.accts.heap.cell ctx.sender.id).nonce ≡ add64 old.nonce 1)
        × (balance_at i ran.world.accts.heap ≡ (
            if i == ctx.sender.id
            then old.balance - (ctx.tx.amount + fee_of ctx.tx)
            else if i == to.id
            then (balance_at to.id w.accts.heap + ctx.tx.amount) % 2 ^ 256
            else balance_at i w.accts.heap))
  unfolding run_trx post_run_trx post_by
  run_trx-transfer handlers ctx w to i no_code apart pos pos' word enough =
      let c = transfer_to to ctx in
      let (s, run, heap) = executed_lem handlers ctx w to no_code pos (omega (arith, enough)) in
      let w1 : World Tree W = record w { accts = s } in
      let h = (move sign ctx.sender to ctx.tx.amount w.accts.heap).1 in
      let moved = moved_lem sign ctx to w.accts.heap to.id pos (omega (arith, enough)) in
      let moved' = moved_lem sign ctx to w.accts.heap ctx.sender.id pos (omega (arith, enough)) in
      let code1 : (s.heap.cell to.id).code ≡ none =
        ap (λ (x : Heap). (x.cell to.id).code) heap ∙ moved.1 ∙ no_code in
      let has_code : receiver_has_code c s.heap ≡ ok false =
        ap (λ (x : Option Bytes). ok (elim x as (λ _. Bool) [ none ↦ false | some _ ↦ true ]))
          code1 in
      let charging : run_trx codec trees sign handlers c w ≡ charge {W = W} codec trees sign c w1 =
        ap (λ (r : Ran Tree W). and_then codec trees sign r (post_run_trx codec trees sign)) run
        ∙ ap (post_by codec trees sign c w1) has_code in
      let balances = λ (j : ℕ).
        ap (balance_at j) heap
        ∙ move_balances sign ctx.sender to ctx.tx.amount w.accts.heap j word apart
            (ap (λ (r : Result (Unit {0}) × Heap). r.0) moved.0) in
      let rich : balance_at ctx.sender.id s.heap
          ≡ balance_at ctx.sender.id w.accts.heap - ctx.tx.amount =
        ground (arith, balances ctx.sender.id) in
      let covered : fee_of ctx.tx ≤ balance_at ctx.sender.id s.heap = omega (arith, rich, enough) in
      let paid = charge_lem codec trees sign c w1 pos' covered in
      let left = charged_lem c s.heap i covered (omega (arith, rich, word)) in
      let nonce : (s.heap.cell ctx.sender.id).nonce ≡ (w.accts.heap.cell ctx.sender.id).nonce =
        ap (λ (x : Heap). (x.cell ctx.sender.id).nonce) heap ∙ moved'.2 in
      let there = balances i in
      rw charging (
        paid.0,
        ap (λ (x : TrxContext). x.gas_used) paid.1,
        ap (λ (x : Heap). (x.cell ctx.sender.id).nonce) paid.2
            ∙ left.1
            ∙ ap (λ (n : ℕ). add64 n 1) nonce,
        ap (balance_at i) paid.2 ∙ left.0 ∙ ground (arith, there, rich),
      )
