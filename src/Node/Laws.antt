-- ===== src/Node/Laws.antt =====
-- What holds of an execution of Node.
pub mod Validation
pub mod Charging
pub mod Transfer
pub mod Execution
pub mod Heights
pub mod Lives
pub mod Restart
pub mod Fees
pub mod Deliveries
pub mod Isolation
pub mod Objects
pub mod Pooled
pub mod Mempool
