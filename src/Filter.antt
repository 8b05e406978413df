-- ===== src/Filter.antt =====
-- internal/filter/filter.go: the .syncignore rules of a mirror.
pub mod Rules
pub mod Engine
pub mod Reload
pub mod Rclone
pub mod Subset
pub mod Order
pub mod Commit
pub mod RoundTrip
pub mod Control
mod Tests
