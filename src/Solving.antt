-- ===== src/Solving.antt =====
-- The parts of the constraint building that call no solver.
pub mod Unions
pub mod Signature
pub mod Interner
pub mod Tracker
mod Tests
