-- ===== src/Risk/CircuitBreaker.antt =====
-- quantcortex/risk/circuit_breaker.py
pub mod Drawdown
pub mod Latch
pub mod Runs
pub mod Overlay
pub mod Range
mod Tests
