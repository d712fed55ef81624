-- ===== src/Backtest/Costs.antt =====
-- quantcortex/backtest/costs/transaction_costs.py
pub mod Rates
pub mod Caps
pub mod Apply
pub mod Charges
mod Tests
