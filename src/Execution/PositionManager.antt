-- ===== src/Execution/PositionManager.antt =====
-- quantcortex/execution/position_manager.py
pub mod Mapping
pub mod Book
pub mod Valuation
pub mod Sizing
pub mod Fills
pub mod Reports
pub mod Invariant
pub mod Orders
mod Tests
