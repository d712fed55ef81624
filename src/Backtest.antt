-- ===== src/Backtest.antt =====
-- quantcortex/backtest: the parts of the simulation that have logic of their own.
pub mod Costs
