-- ===== src/Compute.antt =====
-- The OCR compute worker (src/compute.rs, src/compute_load.rs, src/compute_ratings.rs).
pub mod Retained
pub mod Ratings
pub mod Admission
pub mod Observe
mod Tests
