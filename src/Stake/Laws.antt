-- ===== src/Stake/Laws.antt =====
-- What the structs of staking promise.
pub mod Powers
pub mod Cutting
pub mod Slashing
pub mod Marker
pub mod Limits
pub mod Rewards
pub mod Updates
pub mod Ctrler
