-- ===== src/Containers.antt =====
-- The data structures of include/structor/optimized_containers.hpp.
pub mod UnionFind
mod Tests
