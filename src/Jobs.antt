-- ===== src/Jobs.antt =====
-- The background search jobs of src/jobs.rs: their state, the merging of host results, paging,
-- expiry, persistence and telemetry.
pub mod State
pub mod Merge
pub mod Result
pub mod Store
pub mod Table
pub mod Status
pub mod Telemetry
pub mod Run
mod Tests
