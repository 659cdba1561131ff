-- ===== src/SlabDemos.antt =====
-- The demonstrations of the slab allocator (ch8/slab1 to slab4, solutions_to_assgn/ch8).
mod Tests
pub mod Demos
pub mod Sizes
pub mod Cleanup
pub mod Ends
