-- ===== src/Lib.antt =====
-- The core of rigo-go, a blockchain application on a Tendermint consensus engine: the ledgers that
-- cache a Merkle tree, the accounts, staking, governance proposals, the execution of
-- transactions, and the application that runs the blocks.
--
-- How the parts interact: the executor (node/trx_executor.go) validates a transaction, hands it to
-- the controller of its type and charges its sender. A controller keeps its items in finality
-- ledgers (ledger/), each with one cache for the transactions being checked and one for the block
-- being executed; a commit writes the second to the tree. Items are shared objects: an account
-- found once is changed through its pointer.
--
-- Base: numbers, byte strings, lists, errors as values, sorting. An int64 is its bit pattern below
--   2^64 and a 256-bit number a number below 2^256, with every wrap-around written out; a panic is
--   the error `panicked`.
-- Ledger: ledger/*.go. MemItems is mem_items.go, Simple is simple_ledger.go, Finality is
--   finality_ledger.go, Memory is mem_ledger.go. Tree holds the operations of the iavl tree as a
--   record of functions, and what its documentation says of get, set, remove and save as named
--   hypotheses. A Go map is an association list. The items of a ledger are any type with a key, an
--   encoding and a decoding (`ItemOps`), on a heap of objects.
-- Account: ctrlers/types/account.go (Struct, Codec) and ctrlers/account (Heap, Ctrler). The heap
--   tells the account behind every pointer; `AcctCtrler` is the controller's ledger with the heap.
--   The protobuf messages and the byte form of 256-bit numbers are arguments (`AcctCodec`), and so
--   is `Sign` of uint256.
-- Base/Store: the heap of delegatees and that of proposals. A pointer is a number (`Ref`), with the
--   name of the object it was made for.
-- Trx: the transaction and its context (ctrlers/types/trx.go, trx_ctx.go and the payloads), with
--   the fields that the handlers read.
-- Stake: ctrlers/stake: Item is stake.go, Delegatee is delegatee.go, BlockMarker, Reward and
--   Limiter are the files of those names, Validators the choice of validators in ctrler.go. Ctrler
--   is the rest of ctrler.go: its state and ValidateTrx, and below it Executing (ExecuteTrx),
--   Blocks (InitLedger, and the choice and the punishments of BeginBlock), Rewarding (the rewards of
--   BeginBlock) and Closing (EndBlock, Commit and the readers of powers). The encodings of
--   delegatees, stakes and rewards are arguments (`StakeCodec`).
-- Gov: Proposal is ctrlers/gov/proposal, Params the parameters of ctrlers/types/gov_params.go with
--   their merge, Params/Codec their encodings, over protobuf messages, JSON and decimal texts as
--   arguments with named laws. Ctrler is ctrlers/gov/ctrler.go: its state, ValidateTrx and
--   ExecuteTrx, and below it Blocks (InitLedger, BeginBlock), Closing (EndBlock) and Committing.
--   Events are the values that they carry.
-- Node: Executor is node/trx_executor.go, over the handlers of governance, staking and the EVM and
--   the check of a signature (`Handlers`). BlockContext and MetaDb are ctrlers/types/block_ctx.go and
--   meta_db.go, Evm the guards of ctrlers/vm/evm/ctrler.go. App is node/app.go: its state with the
--   handlers and contexts of transactions, and
--   below it Delivering (CheckTx, DeliverTx), Blocks (BeginBlock, EndBlock), Committing (Commit, Info)
--   and Starting (InitChain). There the handlers are the controllers of Gov, Stake and Evm; the run
--   of the EVM, the decoding and hashing of transactions and the databases are arguments (`Env`).
-- Tests: the theorems at concrete inputs, over a tree that is an association list.
--
-- Loops are structural recursion. The one fuel is that of the merge of two validator lists
-- (Stake/Validators), the sum of their lengths, which is enough since each round shortens one of
-- them. Each operation of a ledger or a controller is one step, as their mutexes make it.
--
-- Not modelled: the opening and closing of databases and ledgers, the formats of JSON, RLP and
-- protobuf, signatures and keys, logging, the events' texts, the queries of the controllers, the EVM,
-- the goroutines of the executor, the clients (node/client.go), and the RPC, command-line and wallet
-- code.
pub mod Base
pub mod Ledger
pub mod Account
pub mod Trx
pub mod Stake
pub mod Gov
pub mod Node
mod Tests
