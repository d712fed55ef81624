-- ===== src/Execution.antt =====
-- quantcortex/execution: orders, positions and the gate before the broker.
pub mod OrderManager
pub mod Brokers
pub mod PositionManager
pub mod PreTradeRisk
pub mod StatePersistence
