-- ===== src/Node.antt =====
-- The application: node/trx_executor.go executes transactions, node/app.go the blocks, and
-- ctrlers/types/block_ctx.go and meta_db.go hold what is kept of a block.
pub mod Executor
pub mod Evm
pub mod BlockContext
pub mod MetaDb
pub mod App
pub mod Laws
