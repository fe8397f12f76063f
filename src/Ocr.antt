-- ===== src/Ocr.antt =====
-- src/ocr.rs: the queue of deferred recognition work, in memory and in the ledger of the index.
pub mod Queue
pub mod Retry
pub mod Durable
pub mod Steps
mod Tests
