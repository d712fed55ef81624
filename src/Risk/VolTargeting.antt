-- ===== src/Risk/VolTargeting.antt =====
-- quantcortex/risk/vol_targeting.py
pub mod Scaling
pub mod Caps
pub mod Overlay
mod Tests
