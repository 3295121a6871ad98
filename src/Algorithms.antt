-- ===== src/Algorithms.antt =====
-- The algorithms of include/structor/optimized_algorithms.hpp.
pub mod Overlaps
pub mod Gcd
pub mod Chunks
pub mod Coverage
mod Tests
