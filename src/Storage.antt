-- ===== src/Storage.antt =====
-- Storage arithmetic of include/structor/synth_types.hpp: offsets, byte ranges and packing.
pub mod Offset
pub mod Packing
mod Tests
