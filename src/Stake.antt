-- ===== src/Stake.antt =====
-- Staking: ctrlers/stake/*.go. The structs of the component and what they compute; an int64 is a
-- bit pattern (Base/Words).
pub mod Item
pub mod BlockMarker
pub mod Delegatee
pub mod Reward
pub mod Limiter
pub mod Validators
pub mod Ctrler
pub mod Laws
