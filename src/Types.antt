-- ===== src/Types.antt =====
-- The type lattice: src/z3/type_lattice.cpp and its header.
pub mod Base
pub mod Inferred
pub mod Subtype
pub mod Lattice
pub mod Solver
pub mod Bitvector
mod Tests
