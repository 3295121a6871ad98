-- ===== src/Host.antt =====
-- The policies that guard changes of the host database and the callbacks of the host.
pub mod Journal
pub mod Lifecycle
pub mod Tinfo
mod Tests
