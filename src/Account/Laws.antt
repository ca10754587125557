-- ===== src/Account/Laws.antt =====
-- What the account operations promise.
pub mod Codec
pub mod Moves
pub mod Views
pub mod Transfers
pub mod Isolation
pub mod Objects
