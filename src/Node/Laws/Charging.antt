-- ===== src/Node/Laws/Charging.antt =====
-- What the charge of node/trx_executor.go does to the sender.
use rigo_go.Base.{
  ℕ, ◌-◌, ◌^◌, ◌≡◌, ◌≤◌, ◌<◌, Bool, true, false, ◌==◌, ltb, if◌then◌else◌, Option, arith, refl, ap,
  ◌∙◌, Option-cases, inl, inr,
}
use rigo_go.Base.Words.{UInt256, sub256, add64}
use rigo_go.Base.Result.{ok}
use rigo_go.Ledger.Tree.{TreeOps}
use rigo_go.Account.Struct.{Account, Sign, is_neg, sub_balance, add_nonce}
use rigo_go.Account.Codec.{AcctCodec}
use rigo_go.Account.Heap.{AcctRef, Heap, debit, write}
use rigo_go.Account.Ctrler.{AcctCtrler, set_account_committable, set_receiver, execute_after}
use rigo_go.Account.Laws.Moves.{balance_at}
use rigo_go.Trx.{TrxContext}
use rigo_go.Node.Executor.{World, fee_of, charge, charge_after}

module _ {Tree : Type 0} (codec : AcctCodec) (trees : TreeOps Tree) (sign : UInt256 → Sign) where
  pub set_committable-heap :
      (r : AcctRef) (exec : Bool) (s : AcctCtrler Tree)
      → (set_account_committable codec trees sign r exec s).heap ≡ s.heap
  unfolding set_account_committable
  set_committable-heap r true s = refl
  set_committable-heap r false s = refl

  pub execute_after-heap :
      (ctx : TrxContext) (s : AcctCtrler Tree) (h : Heap)
      → ((execute_after codec trees sign ctx s (ok tt, h)).0 ≡ ok tt)
        × ((execute_after codec trees sign ctx s (ok tt, h)).1.heap ≡ h)
  unfolding execute_after
  execute_after-heap ctx s h =
      let sender_set =
        set_account_committable codec trees sign ctx.sender ctx.exec (record s { heap = h }) in
      let same = set_committable-heap ctx.sender ctx.exec (record s { heap = h }) in
      elim (Option-cases ctx.receiver) [
        | inl no_receiver ↦ (
          refl,
          ap (λ (r : Option AcctRef). (set_receiver codec trees sign r ctx.exec sender_set).heap)
                no_receiver
              ∙ same,
        )
        | inr (r, e) ↦ (
          refl,
          ap (λ (r : Option AcctRef). (set_receiver codec trees sign r ctx.exec sender_set).heap) e
              ∙ set_committable-heap r ctx.exec sender_set
              ∙ same,
        )
      ]

abbrev debited : UInt256 → Account → Account
debited fee old = record old { balance = sub256 old.balance fee }

-- the objects after a charge of the sender
abbrev pub charged : TrxContext → Heap → Heap
charged ctx h =
    let h' = write ctx.sender.id (debited (fee_of ctx.tx) (h.cell ctx.sender.id)) h in
    write ctx.sender.id (add_nonce (h'.cell ctx.sender.id)) h'

debit_lem :
    (sign : UInt256 → Sign) (fee : UInt256) (r : AcctRef) (h : Heap)
    → is_neg (sign fee) ≡ false
    → fee ≤ (h.cell r.id).balance
    → debit sign fee r h ≡ (ok tt, write r.id (debited fee (h.cell r.id)) h)
unfolding debit sub_balance
debit_lem sign fee r h pos enough =
    let covered : ltb (h.cell r.id).balance fee ≡ false = ground arith in
    let taken : sub_balance sign fee (h.cell r.id) ≡ ok (debited fee (h.cell r.id)) =
      rw (pos, covered, sub_balance) refl in
    rw (taken, debit) refl

pub charged_lem :
    (ctx : TrxContext) (h : Heap) (i : ℕ)
    → let old = h.cell ctx.sender.id in
      fee_of ctx.tx ≤ old.balance
      → old.balance < 2 ^ 256
      → (balance_at i (charged ctx h)
          ≡ (if i == ctx.sender.id then old.balance - fee_of ctx.tx else balance_at i h))
        × (((charged ctx h).cell ctx.sender.id).nonce ≡ add64 old.nonce 1)
unfolding write add_nonce sub256
charged_lem ctx h i enough word = (ground arith, ground arith)

module _ {Tree W : Type 0} (codec : AcctCodec) (trees : TreeOps Tree) (sign : UInt256 → Sign) where
  -- What a charge leaves: the same objects but for the sender's, which is charged.
  pub charge_lem :
      (ctx : TrxContext) (w : World Tree W)
      → let ran = charge {W = W} codec trees sign ctx w in
        is_neg (sign (fee_of ctx.tx)) ≡ false
        → fee_of ctx.tx ≤ balance_at ctx.sender.id w.accts.heap
        → (ran.result ≡ ok tt)
          × (ran.ctx ≡ record ctx { gas_used = ctx.tx.gas })
          × (ran.world.accts.heap ≡ charged ctx w.accts.heap)
  unfolding charge charge_after
  charge_lem ctx w pos enough =
      let took = debit_lem sign (fee_of ctx.tx) ctx.sender w.accts.heap pos enough in
      let s' = record w.accts { heap = charged ctx w.accts.heap } in
      let run : charge {W = W} codec trees sign ctx w ≡ record {
        result = ok tt;
        ctx = record ctx { gas_used = ctx.tx.gas };
        world = record w {
          accts = set_account_committable codec trees sign ctx.sender ctx.exec s';
        };
      } =
        ap (charge_after {W = W} codec trees sign ctx w) took in
      rw run (refl, refl, set_committable-heap codec trees sign ctx.sender ctx.exec s')
