-- ===== src/Portfolio.antt =====
-- quantcortex/portfolio: the contracts on weight vectors.
pub mod Contract
pub mod Normalize
pub mod Projection
pub mod Optimizer
pub mod Brackets
mod Tests
