-- ===== src/Tests.antt =====
-- Concrete inputs at which the theorems apply.
mod Fixture
mod Ledgers
mod Accounts
mod Stakes
mod Proposals
mod Executions
mod ParamsFixture
mod Governors
mod Stakers
mod Applications
