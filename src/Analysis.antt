-- ===== src/Analysis.antt =====
-- What the analyses observe and keep across functions.
pub mod RewriteIndex
pub mod Evidence
pub mod Pattern
pub mod Alternatives
mod Tests
