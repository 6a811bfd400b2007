-- ===== src/Submit.antt =====
-- sync.go, the user side: which block is missing, where its hash comes from, and its submission.
pub mod Services
pub mod Tips
pub mod Walk
pub mod Resolve
pub mod Cache
pub mod Next
pub mod Pipeline
