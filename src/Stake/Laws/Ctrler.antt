-- ===== src/Stake/Laws/Ctrler.antt =====
-- What holds of the controller of Stake/Ctrler.
pub mod Stored
pub mod Staking
pub mod Isolation
pub mod Checking
pub mod Objects
pub mod Delegatees
pub mod Kept
pub mod Eligible
pub mod Genesis
pub mod Unstaking
