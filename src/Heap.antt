-- ===== src/Heap.antt =====
-- The kernel heap: the allocator of fixed size blocks (src/heap.rs) and the list allocator beside it
-- (src/heap/ll.rs).
pub mod Blocks
pub mod Multiples
pub mod Classes
pub mod Aligned
pub mod Regions
pub mod Tests
