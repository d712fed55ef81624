-- ===== src/Scripts.antt =====
-- scripts: the programs that run the library.
pub mod PaperCycle
