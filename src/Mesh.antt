-- ===== src/Mesh.antt =====
-- The mesh service of src/mcp.rs: the requests that a host accepts, the hosts that a request goes
-- to, and the joining of their answers.
pub mod Acl
pub mod Claims
pub mod Compact
pub mod Hosts
pub mod Join
pub mod Paths
mod Tests
