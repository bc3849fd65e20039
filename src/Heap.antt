-- ===== src/Heap.antt =====
-- kernel/src/allocator: the heap. `Layout` is the one of `core::alloc`.
pub mod Layout
pub mod Bump
pub mod LinkedList
