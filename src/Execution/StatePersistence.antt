-- ===== src/Execution/StatePersistence.antt =====
-- quantcortex/execution/state_persistence.py: the durable state of an execution process.
pub mod Codec
pub mod Orders
pub mod OrderRoundTrip
pub mod Positions
pub mod Snapshot
pub mod Store
pub mod Save
pub mod Revisions
pub mod Writers
pub mod Durable
pub mod JsonSafe
pub mod PositionRoundTrip
pub mod SavedState
pub mod Reload
pub mod KeyValue
pub mod Refinement
mod Tests
pub mod Failure
