-- ===== src/Upload.antt =====
-- sync.go, the provider side: blocks and range indexes are copied from the node to the object store.
pub mod Services
pub mod Windows
pub mod Blocks
pub mod Probes
pub mod Indexes
pub mod Once
pub mod Follower
