-- ===== src/Node/App.antt =====
-- node/app.go: the state of the application, and the controllers as the handlers of the executor.
-- The EVM's controller, the decoding of transactions, signatures, hashing and the databases are
-- arguments (`Env`). Each call of the application runs under its mutex, as one step; `err panicked`
-- is a Go panic, which no call after it survives.
pub mod Delivering
pub mod Blocks
pub mod Committing
pub mod Starting
use rigo_go.Base.{ℕ, ◌||◌, Bool, true, false, Option, none, some, List, [], ◌∷◌}
use rigo_go.Base.Bytes.{Bytes, ◌=b◌}
use rigo_go.Base.Words.{Int64, UInt256, mul256}
use rigo_go.Base.Result.{Result, ok, err, panicked, not_found_account, ◌>>=◌, ◌>>◌}
use rigo_go.Ledger.Tree.{TreeOps}
use rigo_go.Account.Struct.{Sign}
use rigo_go.Account.Codec.{AcctCodec}
use rigo_go.Account.Heap.{AcctRef}
use rigo_go.Account.Ctrler.{AcctCtrler, find_account, find_or_new_account}
use rigo_go.Trx.{Trx, TrxContext}
use rigo_go.Gov.Params.{GovParams, min_trx_fee}
use rigo_go.Gov.Ctrler as Governing
use rigo_go.Gov.Ctrler.{GovCodec, GovCtrler, StakeHandler}
use rigo_go.Stake.Delegatee.{Delegatee}
use rigo_go.Stake.Ctrler as Staking
use rigo_go.Stake.Ctrler.{StakeCodec, StakeCtrler}
use rigo_go.Stake.Ctrler.Executing
use rigo_go.Stake.Ctrler.Closing.{validators_of}
use rigo_go.Node.Executor.{World, Ran, Handler, Handlers}
use rigo_go.Node.Evm.{EvmOps, evm_handler, validate_evm, execute_evm}
use rigo_go.Node.BlockContext.{BlockContext, BlockCodec}
use rigo_go.Node.MetaDb.{DbOps, MetaDb}

-- The controllers beside the accounts'; `V` is the state of the EVM's.
pub record Ctrlers (Tree V : Type 0) : Type 0 where
  pub gov : GovCtrler Tree
  pub stake : StakeCtrler Tree
  pub vm : V

abbrev pub AppWorld : Type 0 → Type 0 → Type 0
AppWorld Tree V = World Tree (Ctrlers Tree V)

-- The EVM's controller, which also changes accounts.
pub record Vm (Tree V : Type 0) : Type 0 where
  pub evm : EvmOps Tree (Ctrlers Tree V)
  pub begin_block : BlockContext → AppWorld Tree V → Result (Unit {0}) × AppWorld Tree V
  pub end_block : BlockContext → AppWorld Tree V → Result (Unit {0}) × AppWorld Tree V
  pub commit : AppWorld Tree V → Result (Bytes × ℕ) × AppWorld Tree V

-- What the application is built on.
pub record Env (Tree V Db : Type 0) : Type 0 where
  pub acct_codec : AcctCodec
  pub stake_codec : StakeCodec
  pub gov_codec : GovCodec
  pub block_codec : BlockCodec
  pub trees : TreeOps Tree
  pub db : DbOps Db
  pub vm : Vm Tree V
  pub sign : UInt256 → Sign
  -- `Trx.Decode`, `Hash` of tendermint's `Tx`, and `VerifyTrxRLP` for its public key
  pub decode_trx : Bytes → Result Trx
  pub hash_trx : Bytes → Bytes
  pub verify_trx : Trx → Result Bytes
  -- `crypto.DefaultHash`, of the concatenation of its arguments
  pub hash : Bytes → Bytes

pub record RigoApp (Tree V Db : Type 0) : Type 0 where
  -- nil before `Info`
  pub last_block_ctx : Option BlockContext
  -- nil outside a block
  pub next_block_ctx : Option BlockContext
  pub meta_db : MetaDb Db
  pub world : AppWorld Tree V

-- `IsValidator`
unfoldable pub is_validator : Bytes → List Delegatee → Bool
unfolding ◌=b◌
is_validator addr [] = false
is_validator addr (v ∷ vs) = (v.addr =b addr) || is_validator addr vs

module _ {Tree V Db : Type 0} (env : Env Tree V Db) where
  -- the controller of staking as that of governance sees it
  abbrev pub stake_handler_of : StakeCtrler Tree → StakeHandler
  stake_handler_of s =
      let (validators, total) =
        validators_of env.hash env.stake_codec env.trees s.last_validators 0 in
      record {
        is_validator = λ addr. is_validator addr s.last_validators;
        validators = validators;
        total_power = total;
      }

  abbrev gov_ran :
      TrxContext → AppWorld Tree V → Result (Unit {0}) × GovCtrler Tree → Ran Tree (Ctrlers Tree V)
  gov_ran ctx w (r, s) = record {
    result = r;
    ctx = ctx;
    world = record w { rest = record w.rest { gov = s } };
  }

  abbrev pub gov_handler : Handler Tree (Ctrlers Tree V)
  gov_handler = record {
    validate_trx = λ ctx w. gov_ran ctx w (
        Governing.validate_trx env.gov_codec env.trees (stake_handler_of w.rest.stake) ctx
          w.rest.gov);
    execute_trx = λ ctx w. gov_ran ctx w (
        Governing.execute_trx env.gov_codec env.trees (stake_handler_of w.rest.stake) ctx
          w.rest.gov);
  }

  abbrev stake_ran :
      TrxContext
      → AppWorld Tree V
      → Result (Unit {0}) × StakeCtrler Tree × AcctCtrler Tree
      → Ran Tree (Ctrlers Tree V)
  stake_ran ctx w (r, s, accts) = record {
    result = r;
    ctx = ctx;
    world = record { accts = accts; rest = record w.rest { stake = s } };
  }

  abbrev pub stake_handler : Handler Tree (Ctrlers Tree V)
  stake_handler = record {
    validate_trx = λ ctx w.
        let (r, s) =
          Staking.validate_trx env.stake_codec env.trees w.rest.gov.gov_params ctx w.rest.stake in
        stake_ran ctx w (r, s, w.accts);
    execute_trx = λ ctx w. stake_ran ctx w (
        Executing.execute_trx env.stake_codec env.acct_codec env.trees env.sign
          w.rest.gov.gov_params ctx w.rest.stake w.accts);
  }

  -- The handlers of a context, under the parameters in force; a nil gas price panics, at the latest
  -- where `commonValidation0` asks for it.
  unfoldable pub handlers_of : GovParams → Result (Handlers Tree (Ctrlers Tree V))
  unfolding validate_evm execute_evm min_trx_fee Governing.validate_trx Governing.execute_trx
      Staking.validate_trx Executing.execute_trx is_validator validators_of
  handlers_of params = elim params.gas_price [
    | none ↦ err panicked
    | some price ↦ elim (min_trx_fee params) [
      | err e ↦ err e
      | ok fee ↦ ok (record {
        gov = gov_handler;
        stake = stake_handler;
        evm = evm_handler env.vm.evm;
        gas_price = price;
        min_trx_fee = fee;
        verify_trx = env.verify_trx;
      })
    ]
  ]

  -- `NewTrxContext` once the transaction was decoded: the accounts of its sender, which there must
  -- be, and of its receiver.
  unfoldable pub context_of :
      Trx → Bytes → Int64 → Bool → AcctCtrler Tree → Result TrxContext × AcctCtrler Tree
  unfolding find_account find_or_new_account
  context_of tx hash height exec s =
      let (found, s₁) = find_account env.acct_codec env.trees env.sign tx.from exec s in
      elim found [
        | none ↦ (err not_found_account, s₁)
        | some sender ↦
            let (receiver, s₂) =
              find_or_new_account env.acct_codec env.trees env.sign tx.to exec s₁ in
            (
              ok (record {
                height = height;
                tx_hash = hash;
                tx = tx;
                exec = exec;
                sender_pub_key = [];
                sender = sender;
                receiver = some receiver;
                gas_used = 0;
              }),
              s₂,
            )
      ]
