-- ===== src/Execution/PreTradeRisk.antt =====
-- quantcortex/execution/pre_trade_risk.py
pub mod Limits
pub mod Weights
pub mod Orders
pub mod PostTrade
pub mod Gate
pub mod Safety
pub mod OrderSafety
pub mod Thresholds
pub mod OrderPolicy
pub mod Assert
mod Tests
