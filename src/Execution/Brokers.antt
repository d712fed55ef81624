-- ===== src/Execution/Brokers.antt =====
-- quantcortex/execution/brokers
pub mod Base
