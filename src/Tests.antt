-- ===== src/Tests.antt =====
-- Runs of the modelled functions on inputs that can be followed in the source, and the theorems at
-- concrete data.
pub mod Index
pub mod Submission
mod Pipeline
mod Store
mod Rpc
mod Bench
pub mod Uploads
mod Follower
