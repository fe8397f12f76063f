-- ===== src/Gptadmin.antt =====
-- src/gptadmin.rs: calls of child servers through the GPTAdmin Hub, browser tasks, and the topology.
pub mod Json
pub mod Gate
pub mod Relay
pub mod Receipts
pub mod Topology
mod Tests
