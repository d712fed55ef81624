-- ===== src/Scripts/PaperCycle.antt =====
-- scripts/paper_trade_cycle.py: the submission of one rebalance to a paper account.
pub mod Intents
pub mod Session
pub mod Submit
pub mod Cycle
pub mod Triples
pub mod Ledger
pub mod Recorded
pub mod Once
pub mod Startup
pub mod Cycles
pub mod Placing
pub mod Sends
mod Tests
