-- ===== src/Execution.antt =====
-- polyperps/execution: the value types, reconciliation, the order router and the executors.
pub mod Types
pub mod ClientId
pub mod World
pub mod Router
pub mod Reconciliation
pub mod Portfolio
pub mod SimExecutor
pub mod LiveBars
pub mod LiveExecutor
pub mod Recovery
