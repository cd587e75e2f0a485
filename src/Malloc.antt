-- ===== src/Malloc.antt =====
-- 22-Lab3-malloclab/mm.c, the allocator with an explicit free list.
pub mod Machine
pub mod Block
pub mod Links
pub mod Heap
pub mod Tiling
pub mod Bytes
pub mod View
pub mod Check
pub mod Tests
