-- ===== src/Heap.antt =====
-- kernel/src/heap.rs and below: the allocators of the kernel and of each process.
pub mod Layout
pub mod Buddy
pub mod Allocator
pub mod Bump
