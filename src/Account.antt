-- ===== src/Account.antt =====
-- Accounts: ctrlers/types/account.go and ctrlers/account/*.go. The struct and its methods are in
-- Struct, its encoding in Codec, the heap of account objects in Heap, the controllers in Ctrler
-- and Immutable.
pub mod Struct
pub mod Codec
pub mod Heap
pub mod Ctrler
pub mod Laws
