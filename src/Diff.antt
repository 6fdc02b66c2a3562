-- ===== src/Diff.antt =====
-- cppkg/diff
pub mod Furthest
pub mod Search
pub mod Myers
pub mod Script
pub mod Message
pub mod Lines
pub mod Distance
mod Tests
