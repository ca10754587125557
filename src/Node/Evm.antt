-- ===== src/Node/Evm.antt =====
-- The transactions of ctrlers/vm/evm/ctrler.go up to the run of the EVM, which is an argument, as is
-- the gas that go-ethereum asks for a call (`EvmOps`).
use rigo_go.Base.{ℕ, Bool, not, ltb, if◌then◌else◌, Option, some, []}
use rigo_go.Base.Bytes.{Bytes, ◌=b◌}
use rigo_go.Base.Words.{Int64}
use rigo_go.Base.Result.{Result, ok, err, unknown_trx_type, invalid_gas, from_error}
use rigo_go.Account.Heap.{Heap}
use rigo_go.Trx.{TrxContext, TrxPayload, contract, call}
use rigo_go.Gov.Ctrler.{zero_address}
use rigo_go.Node.Executor.{World, Ran, Handler, receiver_has_code}

pub record EvmOps (Tree W : Type 0) : Type 0 where
  -- `core.IntrinsicGas` of the input, for a creation of a contract or not, at a height
  pub intrinsic_gas : Bytes → Bool → Int64 → Result ℕ
  -- the run of a transaction on the state of the EVM, with what follows it
  pub run : TrxContext → World Tree W → Ran Tree W

-- the input of a call
abbrev pub input_of : Option TrxPayload → Bytes
input_of (some (call input)) = input
input_of _ = []

-- A transaction that is no contract's wants a receiver with code; a nil receiver panics.
abbrev pub wants_evm : TrxContext → Heap → Result (Unit {0})
wants_evm ctx h = elim ctx.tx.type [
  | contract ↦ ok tt
  | _ ↦ elim (receiver_has_code ctx h) [
    | err e ↦ err e
    | ok has_code ↦ if has_code then ok tt else err unknown_trx_type
  ]
]

module _ {Tree W : Type 0} (ops : EvmOps Tree W) where
  abbrev check_gas : TrxContext → Result (Unit {0})
  check_gas ctx =
      elim (ops.intrinsic_gas (input_of ctx.tx.payload) (ctx.tx.to =b zero_address) ctx.height) [
        | err e ↦ err (from_error e)
        | ok gas ↦ if ltb ctx.tx.gas gas then err invalid_gas else ok tt
      ]

  unfoldable pub validate_evm : TrxContext → World Tree W → Ran Tree W
  unfolding ◌=b◌ from_error
  validate_evm ctx w = record {
    result = elim (wants_evm ctx w.accts.heap) [ err e ↦ err e | ok _ ↦ check_gas ctx ];
    ctx = ctx;
    world = w;
  }

  -- Nothing is run outside a block.
  unfoldable pub execute_evm : TrxContext → World Tree W → Ran Tree W
  execute_evm ctx w =
      if not ctx.exec
      then record { result = ok tt; ctx = ctx; world = w }
      else elim (wants_evm ctx w.accts.heap) [
        | err e ↦ record { result = err e; ctx = ctx; world = w }
        | ok _ ↦ ops.run ctx w
      ]

  abbrev pub evm_handler : Handler Tree W
  evm_handler = record { validate_trx = validate_evm; execute_trx = execute_evm }
