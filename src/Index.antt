-- ===== src/Index.antt =====
-- src/index.rs: the persistent index, its OCR ledger and the guard of directory activity.
-- SQLite runs the statements that the source spells out. A table is an ordered map, the statements
-- of one transaction are applied one after another, and the triggers are applied where they fire.
pub mod State
pub mod Documents
pub mod Compact
pub mod Ledger
pub mod Activity
mod Tests
