-- ===== src/Execution/OrderManager.antt =====
-- quantcortex/execution/order_manager.py
pub mod Status
pub mod Order
pub mod Manager
pub mod Validity
pub mod Outcomes
pub mod FillOutcomes
pub mod Soundness
pub mod Lifecycle
pub mod Calls
pub mod Runs
mod Tests
pub mod Effects
pub mod Filled
pub mod FillEffects
