-- ===== src/Memory.antt =====
-- kernel/src/memory: one module for each file of the directory.
pub mod Address
pub mod Bitmap
pub mod FrameAllocator
pub mod PageTable
pub mod Paging
mod Tests
