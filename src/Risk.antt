-- ===== src/Risk.antt =====
-- quantcortex/risk: overlays on a weight vector.
pub mod CircuitBreaker
pub mod VolTargeting
