-- ===== src/Ranked.antt =====
-- The passages that src/ranked.rs shows of a file.
pub mod Lines
pub mod Scope
pub mod Passage
pub mod Window
mod Tests
