-- ===== src/Backend.antt =====
-- Records and helpers of src/backend.rs that the other parts share.
pub mod Hosts
pub mod Hits
pub mod Read
pub mod Roots
mod Tests
