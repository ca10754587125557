-- ===== src/Tests/Executions.antt =====
-- The theorems on executions at a transfer between two objects.
use rigo_go.Base.{
  ℕ, ◌+◌, ◌*◌, ◌-◌, ◌≤◌, ◌^◌, ◌≡◌, ◌≢◌, true, none, some, [], ◌∷◌, refl, arith, ltb, zero, suc,
}
use rigo_go.Base.Bytes.{Bytes}
use rigo_go.Base.Lists.{replicate}
use rigo_go.Base.Words.{UInt256, add64}
use rigo_go.Base.Result.{ok}
use rigo_go.Ledger.Map.{Map}
use rigo_go.Ledger.Finality.{opened}
use rigo_go.Account.Struct.{Account, is_neg}
use rigo_go.Account.Heap.{AcctRef}
use rigo_go.Account.Laws.Moves.{balance_at}
use rigo_go.Trx.{TrxContext, transfer, asset_transfer}
use rigo_go.Node.Executor.{World, Handler, Handlers, common_validation0, common_validation1}
use rigo_go.Node.Laws.Validation.{common_validation_lem}
use rigo_go.Node.Laws.Transfer.{transfer_to}
use rigo_go.Node.Laws.Execution.{execute_sync-transfer}
use rigo_go.Node.Executor.{validate_trx, execute_sync}
use rigo_go.Tests.Fixture.{map_trees, the_codec, the_sign}

abbrev idle : Handler (Map Bytes) (Unit {0})
idle = record {
  validate_trx = λ ctx w. record { result = ok tt; ctx = ctx; world = w };
  execute_trx = λ ctx w. record { result = ok tt; ctx = ctx; world = w };
}

abbrev handlers : Handlers (Map Bytes) (Unit {0})
handlers = record {
  gov = idle;
  stake = idle;
  evm = idle;
  gas_price = 2;
  min_trx_fee = 4;
  verify_trx = λ tx. ok [];
}

abbrev holding : ℕ → ℕ → Account
holding n balance = record {
  address = replicate 20 n;
  name = [];
  nonce = 6;
  balance = balance;
  code = none;
  doc_url = [];
}

abbrev pub cells : ℕ → Account
cells zero = holding 1 100
cells (suc n) = holding 2 50

abbrev world : World (Map Bytes) (Unit {0})
world = record {
  accts = record { acct_ledger = opened []; heap = record { cell = cells; next = 2 } };
  rest = tt;
}

abbrev pub sender : AcctRef
sender = record { addr = replicate 20 1; id = 0 }

abbrev pub receiver : AcctRef
receiver = record { addr = replicate 20 2; id = 1 }

abbrev pub context : TrxContext
context = record {
  height = 7;
  tx_hash = 3 ∷ [];
  tx = record {
    nonce = 6;
    from = replicate 20 1;
    to = replicate 20 2;
    amount = 30;
    gas = 5;
    gas_price = 2;
    type = transfer;
    payload = some asset_transfer;
  };
  exec = true;
  sender_pub_key = [];
  sender = sender;
  receiver = some receiver;
  gas_used = 0;
}

pub apart : sender.id ≢ receiver.id
apart e = cc

pub sign_law : (x : UInt256) → is_neg (the_sign x) ≡ ltb (2 ^ 255 - 1) x
sign_law x = ground arith

passed0 : common_validation0 handlers the_sign context ≡ ok context
unfolding common_validation0
passed0 = refl

passed1 : common_validation1 context.tx (cells 0) ≡ ok tt
unfolding common_validation1
passed1 = refl

common_validation_lem_example :
    (context.tx.amount + context.tx.gas_price * context.tx.gas ≤ (cells 0).balance)
    × ((cells 0).nonce ≡ context.tx.nonce)
common_validation_lem_example =
    common_validation_lem handlers the_sign context context (cells 0) sign_law (omega arith) passed0
      passed1

passed :
    (validate_trx the_codec map_trees the_sign handlers (transfer_to receiver context) world).result
    ≡ ok tt
unfolding validate_trx
passed = refl

execute_sync-transfer_example :
    let ran =
      execute_sync the_codec map_trees the_sign handlers (transfer_to receiver context) world in
    (ran.result ≡ ok tt)
    × (ran.ctx.gas_used ≡ 5)
    × ((ran.world.accts.heap.cell 0).nonce ≡ 7)
    × (balance_at 1 ran.world.accts.heap ≡ 80)
unfolding add64
execute_sync-transfer_example =
    execute_sync-transfer the_codec map_trees the_sign handlers context world receiver 1 sign_law
      (omega arith) refl apart (omega arith) passed
