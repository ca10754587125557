-- ===== src/Ledger.antt =====
-- The ledgers (ledger/*.go): a tree of encoded items, behind caches of decoded ones.
--
-- An item is a Go pointer. `T` is the type of references and `H` that of the heap they point
-- into: `encode` reads the heap when it is called, and `decode` (`getNewItem` and then `Decode`)
-- allocates. The fields that `Key()` reads are never assigned once an item stands in a ledger, so
-- a reference carries its key.
pub mod Map
pub mod MemItems
pub mod Tree
pub mod Simple
pub mod Finality
pub mod Memory
pub mod Laws
