-- ===== src/Userio.antt =====
-- The conversation files of src/userio.rs.
pub mod Base64
pub mod Budget
pub mod Dates
pub mod Names
mod Tests
