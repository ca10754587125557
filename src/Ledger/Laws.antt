-- ===== src/Ledger/Laws.antt =====
-- What the operations of the ledgers promise.
pub mod Reads
pub mod Coherence
pub mod Commit
pub mod Runs
pub mod Memory
pub mod Iteration
pub mod Objects
