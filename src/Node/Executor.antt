-- ===== src/Node/Executor.antt =====
-- node/trx_executor.go: a transaction is validated, run by the controller of its type, and charged.
-- The controllers but the accounts' are arguments (`Handlers`); they share the account objects.
-- The channels of `ExecuteAsync` hand a context to the same two functions.
use rigo_go.Base.{ℕ, ◌^◌, ◌-◌, Bool, true, false, not, ◌||◌, ◌==◌, none, some, ltb, if◌then◌else◌}
use rigo_go.Base.Bytes.{Bytes}
use rigo_go.Base.Lists.{length}
use rigo_go.Base.Words.{UInt256, add256, mul256}
use rigo_go.Base.Result.{
  Result, ok, err, ◌>>◌, XError, invalid_address, invalid_amount, invalid_gas, invalid_gas_price,
  unknown_trx_type, panicked,
}
use rigo_go.Ledger.Tree.{TreeOps}
use rigo_go.Account.Struct.{Account, Sign, is_neg, check_balance, check_nonce, add_nonce}
use rigo_go.Account.Codec.{AcctCodec}
use rigo_go.Account.Heap.{Heap, debit, write}
use rigo_go.Account.Ctrler
use rigo_go.Account.Ctrler.{AcctCtrler, set_account_committable}
use rigo_go.Trx.{
  Trx, TrxContext, transfer, staking, unstaking, proposal, voting, contract, setdoc, withdraw,
  unknown,
}

-- `types.AddrSize`
abbrev pub addr_size : ℕ
addr_size = 20

-- The accounts, and the state of the other controllers.
pub record World (Tree W : Type 0) : Type 0 where
  pub accts : AcctCtrler Tree
  pub rest : W

-- What a call of a handler leaves: it may write the context (`GasUsed`).
pub record Ran (Tree W : Type 0) : Type 0 where
  pub result : Result (Unit {0})
  pub ctx : TrxContext
  pub world : World Tree W

-- `ITrxHandler` of one controller
pub record Handler (Tree W : Type 0) : Type 0 where
  pub validate_trx : TrxContext → World Tree W → Ran Tree W
  pub execute_trx : TrxContext → World Tree W → Ran Tree W

pub record Handlers (Tree W : Type 0) : Type 0 where
  pub gov : Handler Tree W
  pub stake : Handler Tree W
  pub evm : Handler Tree W
  -- `GovHandler.GasPrice`, `GovHandler.MinTrxFee`, and `VerifyTrxRLP` for its public key
  pub gas_price : UInt256
  pub min_trx_fee : UInt256
  pub verify_trx : Trx → Result Bytes

abbrev pub fee_of : Trx → UInt256
fee_of tx = mul256 tx.gas_price tx.gas

module _ {Tree W : Type 0} (handlers : Handlers Tree W) (sign : UInt256 → Sign) where
  abbrev verified : TrxContext → Result TrxContext
  verified ctx =
      if ctx.exec
      then elim (handlers.verify_trx ctx.tx) [
        | ok pub_key ↦ ok (record ctx { sender_pub_key = pub_key })
        | err e ↦ err e
      ]
      else ok ctx

  unfoldable pub common_validation0 : TrxContext → Result TrxContext
  unfolding mul256
  common_validation0 ctx =
      let tx = ctx.tx in
      if not (length tx.from == addr_size)
      then err invalid_address
      else if not (length tx.to == addr_size)
      then err invalid_address
      else if is_neg (sign tx.amount)
      then err invalid_amount
      else if ltb (2 ^ 63 - 1) tx.gas
      then err invalid_gas
      else if is_neg (sign tx.gas_price) || not (tx.gas_price == handlers.gas_price)
      then err invalid_gas_price
      else if ltb (fee_of tx) handlers.min_trx_fee
      then err invalid_gas
      else verified ctx

-- `commonValidation1`, on the sender's account
unfoldable pub common_validation1 : Trx → Account → Result (Unit {0})
unfolding add256 mul256 check_balance check_nonce
common_validation1 tx sender =
    check_balance (add256 (fee_of tx) tx.amount) sender >> check_nonce tx.nonce sender

-- `ctx.Receiver.Code != nil`; a nil receiver panics
abbrev pub receiver_has_code : TrxContext → Heap → Result Bool
receiver_has_code ctx h = elim ctx.receiver [
  | none ↦ err panicked
  | some r ↦ ok (elim (h.cell r.id).code [ none ↦ false | some _ ↦ true ])
]

abbrev pub by_evm : TrxContext → Result Bool → Result Bool
by_evm ctx has_code = elim ctx.tx.type [ contract ↦ ok true | transfer ↦ has_code | _ ↦ ok false ]

module _ {Tree W : Type 0} (codec : AcctCodec) (trees : TreeOps Tree) (sign : UInt256 → Sign) where
  abbrev accounts_validate : TrxContext → World Tree W → Ran Tree W
  accounts_validate ctx w = record {
    result = Ctrler.validate_trx codec trees sign ctx;
    ctx = ctx;
    world = w;
  }

  abbrev pub accounts_execute : TrxContext → World Tree W → Ran Tree W
  accounts_execute ctx w =
      let (r, s) = Ctrler.execute_trx codec trees sign ctx w.accts in
      record { result = r; ctx = ctx; world = record w { accts = s } }

  abbrev pub failed : XError → TrxContext → World Tree W → Ran Tree W
  failed e ctx w = record { result = err e; ctx = ctx; world = w }

  -- the switch of `validateTrx`
  unfoldable pub validate_by_type : Handlers Tree W → TrxContext → World Tree W → Ran Tree W
  unfolding Ctrler.validate_trx
  validate_by_type handlers ctx w = elim ctx.tx.type [
    | proposal ↦ handlers.gov.validate_trx ctx w
    | voting ↦ handlers.gov.validate_trx ctx w
    | transfer ↦ accounts_validate ctx w
    | setdoc ↦ accounts_validate ctx w
    | staking ↦ handlers.stake.validate_trx ctx w
    | unstaking ↦ handlers.stake.validate_trx ctx w
    | withdraw ↦ handlers.stake.validate_trx ctx w
    | contract ↦ handlers.evm.validate_trx ctx w
    | unknown ↦ failed unknown_trx_type ctx w
  ]

  unfoldable pub validate_trx : Handlers Tree W → TrxContext → World Tree W → Ran Tree W
  unfolding common_validation0 common_validation1 validate_by_type
  validate_trx handlers ctx w = elim (common_validation0 handlers sign ctx) [
    | err e ↦ failed e ctx w
    | ok ctx' ↦ elim (common_validation1 ctx'.tx (w.accts.heap.cell ctx'.sender.id)) [
      | err e ↦ failed e ctx' w
      | ok _ ↦ validate_by_type handlers ctx' w
    ]
  ]

  -- What follows `SubBalance` of the fee.
  unfoldable pub charge_after : TrxContext → World Tree W → Result (Unit {0}) × Heap → Ran Tree W
  unfolding add_nonce write set_account_committable
  charge_after ctx w (err e, h) = failed e ctx (record w { accts = record w.accts { heap = h } })
  charge_after ctx w (ok _, h) =
      let h' = write ctx.sender.id (add_nonce (h.cell ctx.sender.id)) h in
      let s' = record w.accts { heap = h' } in
      record {
        result = ok tt;
        ctx = record ctx { gas_used = ctx.tx.gas };
        world = record w {
          accts = set_account_committable codec trees sign ctx.sender ctx.exec s';
        };
      }

  -- The fee, the nonce and the used gas of a transaction that the EVM does not charge.
  unfoldable pub charge : TrxContext → World Tree W → Ran Tree W
  unfolding debit mul256 charge_after
  charge ctx w = charge_after ctx w (debit sign (fee_of ctx.tx) ctx.sender w.accts.heap)

  -- by whether the EVM has charged the transaction
  unfoldable pub post_by : TrxContext → World Tree W → Result Bool → Ran Tree W
  unfolding charge
  post_by ctx w (err e) = failed e ctx w
  post_by ctx w (ok true) = record { result = ok tt; ctx = ctx; world = w }
  post_by ctx w (ok false) = charge ctx w

  unfoldable pub post_run_trx : TrxContext → World Tree W → Ran Tree W
  unfolding post_by
  post_run_trx ctx w = post_by ctx w (by_evm ctx (receiver_has_code ctx w.accts.heap))

  -- The EVM's `ErrUnknownTrxType` is passed over.
  abbrev pub evm_result : Ran Tree W → Ran Tree W
  evm_result ran = record ran {
    result = elim ran.result [
      | ok _ ↦ ok tt
      | err e ↦ elim e [ unknown_trx_type ↦ ok tt | x ↦ err x ]
    ];
  }

  abbrev pub run_transfer : Handlers Tree W → TrxContext → World Tree W → Result Bool → Ran Tree W
  run_transfer handlers ctx w (err e) = failed e ctx w
  run_transfer handlers ctx w (ok true) = evm_result (handlers.evm.execute_trx ctx w)
  run_transfer handlers ctx w (ok false) = accounts_execute ctx w

  -- the switch of `runTrx`
  unfoldable pub run_by_type : Handlers Tree W → TrxContext → World Tree W → Ran Tree W
  unfolding Ctrler.execute_trx
  run_by_type handlers ctx w = elim ctx.tx.type [
    | contract ↦ evm_result (handlers.evm.execute_trx ctx w)
    | proposal ↦ handlers.gov.execute_trx ctx w
    | voting ↦ handlers.gov.execute_trx ctx w
    | transfer ↦ run_transfer handlers ctx w (receiver_has_code ctx w.accts.heap)
    | setdoc ↦ accounts_execute ctx w
    | staking ↦ handlers.stake.execute_trx ctx w
    | unstaking ↦ handlers.stake.execute_trx ctx w
    | withdraw ↦ handlers.stake.execute_trx ctx w
    | unknown ↦ failed unknown_trx_type ctx w
  ]

  -- `if xerr != nil return xerr`, and on with the next step otherwise
  abbrev pub and_then : Ran Tree W → (TrxContext → World Tree W → Ran Tree W) → Ran Tree W
  and_then ran next = elim ran.result [ err e ↦ ran | ok _ ↦ next ran.ctx ran.world ]

  unfoldable pub run_trx : Handlers Tree W → TrxContext → World Tree W → Ran Tree W
  unfolding run_by_type post_run_trx
  run_trx handlers ctx w = and_then (run_by_type handlers ctx w) post_run_trx

  -- `ExecuteSync`
  unfoldable pub execute_sync : Handlers Tree W → TrxContext → World Tree W → Ran Tree W
  unfolding validate_trx run_trx
  execute_sync handlers ctx w = and_then (validate_trx handlers ctx w) (run_trx handlers)
