-- ===== src/Gov.antt =====
-- Governance: ctrlers/gov/proposal/*.go.
pub mod Params
pub mod Proposal
pub mod Ctrler
pub mod Laws
